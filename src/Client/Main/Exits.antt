-- ===== src/Client/Main/Exits.antt =====
-- What `main` can end with.
use simple_chat_ddn.Common.{◌≡◌, refl, Result, ok, err, List, Bool, true, false}
use simple_chat_ddn.Common.Text.{Text}
use simple_chat_ddn.Core.Error.{ApplicationError}
use simple_chat_ddn.Core.Bincode.{Codec}
use simple_chat_ddn.Core.Stream.{Reader, Writer}
use simple_chat_ddn.Core.Message.Client.{ClientMessage}
use simple_chat_ddn.Core.Message.Server.{ServerMessage}
use simple_chat_ddn.Core.Utils.{validate_username}
use simple_chat_ddn.Client.Usernames.{Input}
use simple_chat_ddn.Client.Commands.{ChatClient}
use simple_chat_ddn.Client.Join.{Outcome, returned, prompting, exhausted, new}
use simple_chat_ddn.Client.Run.{Event, run}
use simple_chat_ddn.Client.Main.{exited, ended, connected, validated, main}

module _ {R W : Type 0} where
  ended_ok : (x : List Text × Bool × ChatClient R W) → (ended x).0 ≡ exited (ok tt) → x.1 ≡ true
  unfolding ended
  ended_ok (lines, true, client) h = refl
  ended_ok (lines, false, client) h = absurd (cc (h))

module _ {R W : Type 0} ⦃r : Reader R⦄ ⦃w : Writer W⦄ ⦃enc : Codec ClientMessage⦄
    ⦃dec : Codec ServerMessage⦄ (trim : Text → Text) where
  connected_ok :
      (es : List Event) (x : Outcome × ChatClient R W × Input)
      → (connected trim es x).0 ≡ exited (ok tt)
      → (x.0 ≡ returned (ok tt)) × ((run trim es x.1).1 ≡ true)
  unfolding connected
  connected_ok es (returned (ok _), client, input) h = (refl, ended_ok (run trim es client) h)
  connected_ok es (returned (err e), client, input) h = absurd (cc (h))
  connected_ok es (prompting, client, input) h = absurd (cc (h))
  connected_ok es (exhausted, client, input) h = absurd (cc (h))

  -- The client that has joined over this connection, and run to its end.
  abbrev pub Succeeds : Text → Result Text (R × W) → Input → List Event → Type 0
  Succeeds username (ok (reader, writer)) input es =
      ((new trim username reader writer input).0 ≡ returned (ok tt))
      × ((run trim es (new trim username reader writer input).1).1 ≡ true)
  Succeeds username (err e) input es = ⊥

  validated_ok :
      (v : Result ApplicationError (Unit {0})) (username : Text) (connection : Result Text (R × W))
      (input : Input) (es : List Event)
      → (validated trim v username connection input es).0 ≡ exited (ok tt)
      → (v ≡ ok tt) × Succeeds username connection input es
  unfolding validated
  validated_ok (err e) username connection input es h = absurd (cc (h))
  validated_ok (ok _) username (err e) input es h = absurd (cc (h))
  validated_ok (ok _) username (ok (reader, writer)) input es h =
      (refl, connected_ok es (new trim username reader writer input) h)

  -- If the client's `main` ends without an error, the name that it was started with passes
  -- `validate_username`, the connection was made, the client has joined over it, and its run has
  -- ended.
  main_ok :
      (username : Text) (connection : Result Text (R × W)) (input : Input) (es : List Event)
      → (main trim username connection input es).0 ≡ exited (ok tt)
      → (validate_username username ≡ ok tt) × Succeeds username connection input es
  unfolding main
  main_ok username connection input es h =
      validated_ok (validate_username username) username connection input es h
