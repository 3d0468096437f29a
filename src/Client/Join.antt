-- ===== src/Client/Join.antt =====
-- `join_with_retry` of chat-client/src/client.rs.
pub mod Attempts
pub mod Welcome
use simple_chat_ddn.Common.{
  ℕ, zero, suc, ◌+◌, ◌%◌, Result, ok, err, Option, none, some, List, [], ◌∷◌, ◌++◌, leb, replicate,
  if◌then◌else◌,
}
use simple_chat_ddn.Common.Text.{Text, Bytes, ascii}
use simple_chat_ddn.Common.Decimal.{decimal}
use simple_chat_ddn.Core.Error.{ApplicationError, display}
use simple_chat_ddn.Core.Bincode.{Codec}
use simple_chat_ddn.Core.Stream.{Reader, Writer}
use simple_chat_ddn.Core.Message.Client.{ClientMessage, join}
use simple_chat_ddn.Core.Message.Server.{
  ServerMessage, success, error, user_name_already_taken, message, user_joined, user_left,
}
use simple_chat_ddn.Core.Transport.{read_message_from_stream}
use simple_chat_ddn.Client.Usernames.{
  Answer, chosen, failed, unanswered, Input, generate_alternative_username,
  prompt_username_selection_loop,
}
use simple_chat_ddn.Client.Commands.{ChatClient, send_client_message}

abbrev pub max_join_attempts : ℕ
max_join_attempts = 3

-- The result of the loop; `prompting` is a prompt that still waits for the user, and `exhausted` is
-- no result of the code: the fuel was too little.
pub data Outcome : Type 0 where
  returned : Result Text (Unit {0}) → Outcome
  prompting exhausted : Outcome

gave_up : Text → Text
gave_up username =
    ascii "Failed to join after "
    ++ (decimal max_join_attempts
        ++ (ascii " attempts. username '"
            ++ (username ++ ascii "' is taken and no alternatives were accepted.")))

-- `vec![0u8; 4096]`
abbrev pub answer_buffer : Bytes
answer_buffer = replicate 4096 0

module _ {R W : Type 0} ⦃r : Reader R⦄ ⦃w : Writer W⦄ ⦃cc : Codec ClientMessage⦄
    ⦃cs : Codec ServerMessage⦄ (trim : Text → Text) where
  -- A round goes on with another name, or ends.
  round_end :
      (ChatClient R W → Input → Outcome × ChatClient R W × Input)
      → ChatClient R W
      → Answer × Input
      → Outcome × ChatClient R W × Input
  round_end again client (chosen (some name), input) =
      again (record client { username = name }) input
  round_end again client (chosen none, input) =
      (returned (err (ascii "User cancelled join process")), client, input)
  round_end again client (failed e, input) = (returned (err e), client, input)
  round_end again client (unanswered, input) = (prompting, client, input)

  -- The name is taken.
  retry :
      (ChatClient R W → Input → Outcome × ChatClient R W × Input)
      → Text
      → ChatClient R W
      → Input
      → Outcome × ChatClient R W × Input
  unfolding round_end
  retry again username client input =
      if leb max_join_attempts client.join_attempts
      then (returned (err (gave_up username)), client, input)
      else round_end again client (
          prompt_username_selection_loop trim
            (generate_alternative_username client.username client.join_attempts) input)

  -- The server's answer to a `Join`.
  answered :
      (ChatClient R W → Input → Outcome × ChatClient R W × Input)
      → Result ApplicationError ServerMessage
      → ChatClient R W
      → Input
      → Outcome × ChatClient R W × Input
  unfolding retry
  answered again (ok (success m)) client input = (returned (ok tt), client, input)
  answered again (ok (user_name_already_taken username)) client input =
      retry again username client input
  answered again (ok (error reason)) client input =
      (returned (err (ascii "Server error during join: " ++ reason)), client, input)
  answered again (ok (message u c)) client input =
      (returned (err (ascii "Unexpected server response during join process")), client, input)
  answered again (ok (user_joined u)) client input =
      (returned (err (ascii "Unexpected server response during join process")), client, input)
  answered again (ok (user_left u)) client input =
      (returned (err (ascii "Unexpected server response during join process")), client, input)
  answered again (err e) client input =
      (returned (err (ascii "Application error: " ++ display e)), client, input)

  -- After the `Join` is sent: read the answer from the socket.
  pub sent :
      (ChatClient R W → Input → Outcome × ChatClient R W × Input)
      → Result Text (Unit {0}) × ChatClient R W
      → Input
      → Outcome × ChatClient R W × Input
  unfolding answered
  sent again (err e, client) input = (returned (err e), client, input)
  sent again (ok _, client) input =
      let (result, reader', buffer) = read_message_from_stream client.reader answer_buffer in
      answered again result (record client { reader = reader' }) input

  -- The loop, on fuel. `join_attempts` is a u8.
  unfoldable pub join_with_retry : ℕ → ChatClient R W → Input → Outcome × ChatClient R W × Input
  unfolding sent gave_up
  join_with_retry zero client input = (exhausted, client, input)
  join_with_retry (suc fuel) client input =
      let again = λ (c : ChatClient R W) (i : Input). join_with_retry fuel c i in
      let client' = record client { join_attempts = (client.join_attempts + 1) % 256 } in
      sent again (send_client_message (join client.username) client') input

  -- `ChatClient::new`, once it is connected: three rounds are enough.
  unfoldable pub new : Text → R → W → Input → Outcome × ChatClient R W × Input
  unfolding join_with_retry
  new username reader writer input =
      join_with_retry max_join_attempts
        (record {
          username = username;
          original_username = username;
          reader = reader;
          writer = writer;
          join_attempts = 0;
        })
        input
