-- ===== src/Client/Main.antt =====
-- `main` of chat-client/src/main.rs, once its arguments are parsed. `connection` is what
-- `TcpStream::connect` gives, which is looked at only if the name is valid. The prompts and the loop
-- have their input as two lists.
pub mod Exits
use simple_chat_ddn.Common.{
  ℕ, Result, ok, err, Option, none, some, List, [], ◌∷◌, Bool, true, false, if◌then◌else◌,
}
use simple_chat_ddn.Common.Text.{Text, ascii}
use simple_chat_ddn.Core.Error.{ApplicationError, display}
use simple_chat_ddn.Core.Bincode.{Codec}
use simple_chat_ddn.Core.Stream.{Reader, Writer}
use simple_chat_ddn.Core.Message.Client.{ClientMessage}
use simple_chat_ddn.Core.Message.Server.{ServerMessage}
use simple_chat_ddn.Core.Utils.{validate_username}
use simple_chat_ddn.Client.Usernames.{Input}
use simple_chat_ddn.Client.Commands.{ChatClient}
use simple_chat_ddn.Client.Join.{Outcome, returned, prompting, exhausted, new}
use simple_chat_ddn.Client.Run.{Event, run}

-- The result of `main`, or none while it still waits for something.
pub data Exit : Type 0 where
  exited : Result Text (Unit {0}) → Exit
  waiting : Exit

-- What has been printed for the server's messages, and the writer, if there is a connection.
abbrev pub Process : Type 0 → Type 0
Process W = Exit × List Text × Option W

-- The defaults of the arguments.
abbrev pub default_host : Text
default_host = ascii "127.0.0.1"

abbrev pub default_port : ℕ
default_port = 8080

module _ {R W : Type 0} where
  ended : List Text × Bool × ChatClient R W → Process W
  ended (lines, over, client) =
      (if over then exited (ok tt) else waiting, lines, some client.writer)

module _ {R W : Type 0} ⦃r : Reader R⦄ ⦃w : Writer W⦄ ⦃enc : Codec ClientMessage⦄
    ⦃dec : Codec ServerMessage⦄ (trim : Text → Text) where
  -- `ChatClient::new(...).await?` and `client.run().await?`
  connected : List Event → Outcome × ChatClient R W × Input → Process W
  unfolding ended
  connected events (returned (ok _), client, input) = ended (run trim events client)
  connected events (returned (err e), client, input) = (exited (err e), [], some client.writer)
  connected events (prompting, client, input) = (waiting, [], some client.writer)
  connected events (exhausted, client, input) = (waiting, [], some client.writer)

  -- `ChatClient::new` begins with the connection.
  validated :
      Result ApplicationError (Unit {0})
      → Text
      → Result Text (R × W)
      → Input
      → List Event
      → Process W
  unfolding connected
  validated (err e) username connection input events = (exited (err (display e)), [], none)
  validated (ok _) username (err e) input events = (exited (err e), [], none)
  validated (ok _) username (ok (reader, writer)) input events =
      connected events (new trim username reader writer input)

  unfoldable pub main : Text → Result Text (R × W) → Input → List Event → Process W
  unfolding validated
  main username connection input events =
      validated (validate_username username) username connection input events
