-- ===== src/Client/Join/Attempts.antt =====
-- The rounds of joining: how many there are, and what they send.
pub mod Rounds
use mathlib.Core.List.{append_assoc, append-nil}
use simple_chat_ddn.Common.{
  ℕ, zero, suc, ◌+◌, ◌%◌, ◌≤◌, ◌<◌, ◌≡◌, ◌≢◌, refl, sym, ap, ◌∙◌, subst, Result, ok, err, none,
  some, List, [], ◌∷◌, ◌++◌, length, leb, arith, if◌then◌else◌, Bool, true, false,
}
use simple_chat_ddn.Common.Text.{Text, Bytes}
use simple_chat_ddn.Core.Error.{ApplicationError}
use simple_chat_ddn.Core.Bincode.{Codec}
use simple_chat_ddn.Core.Stream.{Reader, Writer, IsWriter}
use simple_chat_ddn.Core.Message.Client.{ClientMessage, join}
use simple_chat_ddn.Core.Message.Server.{
  ServerMessage, success, error, user_name_already_taken, message, user_joined, user_left,
}
use simple_chat_ddn.Core.Protocol.{frame}
use simple_chat_ddn.Client.Commands.{ChatClient, send_client_message}
use simple_chat_ddn.Client.Commands.Sending.{
  SendsFrame, send_client_message_ok, send_client_message_attempts,
}
use simple_chat_ddn.Client.Usernames.{Answer, chosen, failed, unanswered, Input}
use simple_chat_ddn.Client.Join.{
  max_join_attempts, Outcome, returned, exhausted, gave_up, round_end, retry, answered,
  sent as sent_on, join_with_retry, new,
}
use simple_chat_ddn.Client.Join.Attempts.Rounds.{JoinFrames, Joined, Ends, Asked, sent-Ends}

module _ {R W : Type 0} ⦃r : Reader R⦄ ⦃w : Writer W⦄ {sent : W → Bytes} (l : IsWriter w sent)
    ⦃enc : Codec ClientMessage⦄ ⦃dec : Codec ServerMessage⦄ (trim : Text → Text) where
  -- What follows a round that has asked.
  Asked-Ends :
      (start client c : ChatClient R W) (x : Outcome × ChatClient R W × Input)
      → Asked sent start client
      → c.join_attempts ≡ client.join_attempts
      → sent c.writer ≡ sent client.writer
      → Ends sent c x
      → Ends sent start x
  unfolding Ends Joined Asked JoinFrames
  Asked-Ends start client c x (p, encoded, out, named, counted, _) same sends (over, few, done) = (
    over,
    few,
    λ e.
        let (ns, b, frames, rest, more) = done e in
        (
          start.username ∷ ns,
          frame p ++ b,
          (p, b, encoded, refl, frames),
          rest ∙ ap (λ s. s ++ b) (sends ∙ out) ∙ append_assoc (sent start.writer) (frame p) b,
          omega (arith, counted, same, more),
        ),
  )

  abbrev counted : ChatClient R W → ChatClient R W
  counted c = record c { join_attempts = (c.join_attempts + 1) % 256 }

  ask-few :
      (c : ChatClient R W)
      → c.join_attempts < max_join_attempts
      → (send_client_message (join c.username) (counted c)).1.join_attempts ≡ suc c.join_attempts
  ask-few c h = send_client_message_attempts (join c.username) (counted c) ∙ omega arith

  ask-Asked :
      (c : ChatClient R W)
      → c.join_attempts < max_join_attempts
      → (send_client_message (join c.username) (counted c)).0 ≡ ok tt
      → Asked sent c (send_client_message (join c.username) (counted c)).1
  unfolding Asked SendsFrame
  ask-Asked c h k =
      let (p, encoded, out, named) = send_client_message_ok l (join c.username) (counted c) k in
      (p, encoded, out, named, ask-few c h, omega (arith, ask-few c h))

  join_with_retry-Ends :
      (fuel : ℕ) (c : ChatClient R W) (i : Input)
      → c.join_attempts < max_join_attempts
      → max_join_attempts ≤ c.join_attempts + fuel
      → Ends sent c (join_with_retry trim fuel c i)
  unfolding join_with_retry
  join_with_retry-Ends zero c i h k = absurd (omega arith)
  join_with_retry-Ends (suc fuel) c i h k =
      sent-Ends sent trim c (λ d j. join_with_retry trim fuel d j) _ i (omega (arith, ask-few c h))
        (ask-Asked c h)
        (λ d j same sends less a. Asked-Ends c _ d _ a same sends (
          join_with_retry-Ends fuel d j (omega (arith, same, less))
            (omega (arith, same, ask-few c h))))

  abbrev client_of : Text → R → W → ChatClient R W
  client_of username reader writer = record {
    username = username;
    original_username = username;
    reader = reader;
    writer = writer;
    join_attempts = 0;
  }

  -- Whatever the server answers and the user types, three rounds of fuel are enough for
  -- `ChatClient::new`: it returns or waits for the user, after three attempts at most.
  pub new_returns :
      (username : Text) (reader : R) (writer : W) (i : Input)
      → ((new trim username reader writer i).0 ≢ exhausted)
        × ((new trim username reader writer i).1.join_attempts ≤ 3)
  unfolding new Ends
  new_returns username reader writer i =
      let (over, few, _) =
        join_with_retry-Ends 3 (client_of username reader writer) i (omega arith) (omega arith) in
      (over, few)

  -- If `ChatClient::new` joins, what it has sent since it was connected is the frame of a `Join`
  -- for each of one to three names, in order, and the last of these is the name that the client has
  -- now.
  pub new_joined :
      (username : Text) (reader : R) (writer : W) (i : Input)
      → (new trim username reader writer i).0 ≡ returned (ok tt)
      → (ns : List Text) × (b : Bytes) × JoinFrames
          (ns ++ (new trim username reader writer i).1.username ∷ [])
          b
        × (sent (new trim username reader writer i).1.writer ≡ sent writer ++ b)
        × (length ns < 3)
  unfolding new Ends Joined
  new_joined username reader writer i e =
      let (_, few, done) =
        join_with_retry-Ends 3 (client_of username reader writer) i (omega arith) (omega arith) in
      let (ns, b, frames, out, more) = done e in (ns, b, frames, out, omega (arith, few, more))
