-- ===== src/Client/Join/Welcome.antt =====
-- A first round of joining that succeeds.
use simple_chat_ddn.Common.{◌≡◌, ap, ◌∙◌, Result, ok, err}
use simple_chat_ddn.Common.Text.{Text, Bytes}
use simple_chat_ddn.Core.Bincode.{Codec}
use simple_chat_ddn.Core.Stream.{Reader, Writer}
use simple_chat_ddn.Core.Message.Client.{ClientMessage, join}
use simple_chat_ddn.Core.Message.Server.{ServerMessage, success}
use simple_chat_ddn.Core.Transport.{read_message_from_stream}
use simple_chat_ddn.Client.Commands.{ChatClient, send_client_message}
use simple_chat_ddn.Client.Commands.Sending.{send_client_message_reader}
use simple_chat_ddn.Client.Usernames.{Input}
use simple_chat_ddn.Client.Join.{
  Outcome, returned, answer_buffer, answered, sent, join_with_retry, new,
}

module _ {R W : Type 0} where
  -- The client when it asks for the first time.
  abbrev pub first : Text → R → W → ChatClient R W
  first username reader writer = record {
    username = username;
    original_username = username;
    reader = reader;
    writer = writer;
    join_attempts = 1;
  }

module _ {R W : Type 0} ⦃r : Reader R⦄ ⦃w : Writer W⦄ ⦃enc : Codec ClientMessage⦄
    ⦃dec : Codec ServerMessage⦄ (trim : Text → Text) where
  sent_welcomed :
      (again : ChatClient R W → Input → Outcome × ChatClient R W × Input)
      (x : Result Text (Unit {0}) × ChatClient R W) (input : Input) (m : Text) (reader' : R)
      (buffer' : Bytes)
      → x.0 ≡ ok tt
      → read_message_from_stream x.1.reader answer_buffer ≡ (ok (success m), reader', buffer')
      → sent trim again x input ≡ (returned (ok tt), record x.1 { reader = reader' }, input)
  unfolding sent answered
  sent_welcomed again (err e, client) input m reader' buffer' h read = absurd (cc (h))
  sent_welcomed again (ok _, client) input m reader' buffer' h read =
      ap (λ y. answered trim again y.0 (record client { reader = y.1 }) input) read

  -- If the first `Join` is sent and answered by a `Success`, `new` has joined.
  pub new_welcomed :
      (username : Text) (reader : R) (writer : W) (input : Input) (m : Text) (reader' : R)
      (buffer' : Bytes)
      → let asked = send_client_message (join username) (first username reader writer) in
        asked.0 ≡ ok tt
        → read_message_from_stream reader answer_buffer ≡ (ok (success m), reader', buffer')
        → new trim username reader writer input
          ≡ (returned (ok tt), record asked.1 { reader = reader' }, input)
  unfolding new join_with_retry
  new_welcomed username reader writer input m reader' buffer' h read =
      sent_welcomed (λ c i. join_with_retry trim 2 c i)
        (send_client_message (join username) (first username reader writer)) input m reader' buffer'
        h
        (ap (λ s. read_message_from_stream s answer_buffer)
            (send_client_message_reader (join username) (first username reader writer))
          ∙ read)
