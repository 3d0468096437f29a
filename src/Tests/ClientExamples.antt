-- ===== src/Tests/ClientExamples.antt =====
-- The theorems on chat-client at concrete inputs.
use simple_chat_ddn.Common.{
  ◌≡◌, ◌≢◌, ◌≤◌, ◌<◌, ◌↔◌, ◌⊎◌, refl, Result, ok, some, List, [], ◌∷◌, ◌++◌, true, false, length,
  map, arith,
}
use simple_chat_ddn.Common.Text.{Text, Bytes, ascii, text_eq, is_empty}
use simple_chat_ddn.Core.Message.Client.{leave}
use simple_chat_ddn.Core.Message.Server.{success, user_joined}
use simple_chat_ddn.Core.Protocol.{frame, encode_message, decode_message, prefix_of}
use simple_chat_ddn.Core.Transport.{read_message_from_stream}
use simple_chat_ddn.Core.Utils.{validate_username}
use simple_chat_ddn.Client.Commands.{
  send_client_message, handle_user_input, graceful_leave, split_space,
}
use simple_chat_ddn.Client.Join.{returned, exhausted, new}
use simple_chat_ddn.Client.Join.Attempts.Rounds.{JoinFrames}
use simple_chat_ddn.Client.Join.Attempts.{new_returns, new_joined}
use simple_chat_ddn.Client.Messages.{render}
use simple_chat_ddn.Client.Run.{from_stdin, ctrl_c, run}
use simple_chat_ddn.Client.Run.Leaving.{Chunk, arrival, run_prints, run_leave, IsChunk}
use simple_chat_ddn.Client.Main.{main, exited}
use simple_chat_ddn.Client.Usernames.{
  generate_alternative_username, prompt_username_selection_loop, chosen, Input,
}
use simple_chat_ddn.Client.Usernames.Choices.{Typed, prompt_chosen, suggestion_refused}
use simple_chat_ddn.Tests.Actors.{bob, client}
use simple_chat_ddn.Tests.Fixture.{
  client_codec, server_codec, server_codec-IsLawful, bytes_reader, bytes_writer,
  bytes_writer-IsWriter, encode_client, encode_server,
}

abbrev as_typed : Text → Text
as_typed line = line

-- The server takes "bob" for taken, and then welcomes "bob_02".
abbrev answers : Bytes
answers = (0 ∷ 0 ∷ 0 ∷ 4 ∷ 2 ∷ bob) ++ (0 ∷ 0 ∷ 0 ∷ 3 ∷ 0 ∷ ascii "ok")

abbrev typed : Input
typed = ok (ascii "1") ∷ []

new_returns_example :
    ((new {R = Bytes} {W = Bytes} as_typed bob answers [] typed).0 ≢ exhausted)
    × ((new {R = Bytes} {W = Bytes} as_typed bob answers [] typed).1.join_attempts ≤ 3)
new_returns_example = new_returns bytes_writer-IsWriter as_typed bob answers [] typed

joins : (new {R = Bytes} {W = Bytes} as_typed bob answers [] typed).0 ≡ returned (ok tt)
unfolding new send_client_message encode_message read_message_from_stream prefix_of decode_message
    prompt_username_selection_loop
joins = refl

new_joined_example :
    (ns : List Text) × (b : Bytes) × JoinFrames
      (ns ++ (new {R = Bytes} {W = Bytes} as_typed bob answers [] typed).1.username ∷ [])
      b
    × ((new {R = Bytes} {W = Bytes} as_typed bob answers [] typed).1.writer ≡ [] ++ b)
    × (length ns < 3)
new_joined_example = new_joined bytes_writer-IsWriter as_typed bob answers [] typed joins

-- Two messages, each in a chunk of its own, and something more in the second.
abbrev chunks : List Chunk
unfolding frame
chunks =
    record {
      message = success (ascii "hi");
      payload = encode_server (success (ascii "hi"));
      rest = [];
      fits = omega arith;
    }
    ∷ record {
      message = user_joined bob;
      payload = encode_server (user_joined bob);
      rest = 0 ∷ 0 ∷ [];
      fits = omega arith;
    }
    ∷ []

run_prints_example :
    run as_typed (map arrival chunks) client ≡ (map (λ x. render x.message) chunks, false, client)
unfolding IsChunk chunks
run_prints_example =
    run_prints as_typed server_codec-IsLawful chunks client
      ((refl, omega arith), ((refl, omega arith), tt))

leave_goes : (send_client_message (leave bob) client).0 ≡ ok tt
unfolding send_client_message encode_message
leave_goes = refl

farewell_goes : (graceful_leave client).0 ≡ ok tt
unfolding graceful_leave send_client_message encode_message
farewell_goes = refl

leaves_again : (graceful_leave (handle_user_input (ascii "leave") client).1).0 ≡ ok tt
unfolding graceful_leave handle_user_input text_eq split_space send_client_message encode_message
leaves_again = refl

run_leave_example :
    (p : Bytes) × (◌≡◌ {A = Result Text Bytes} (ok (encode_client (leave bob))) (ok p))
    × ((run as_typed (from_stdin (ok (ascii "leave")) ∷ []) client).1 ≡ true)
    × ((run as_typed (from_stdin (ok (ascii "leave")) ∷ []) client).2.writer
        ≡ [] ++ (frame p ++ frame p))
run_leave_example =
    run_leave bytes_writer-IsWriter as_typed b'l' (ascii "eave") [] client refl leave_goes
      leaves_again

abbrev two_lines : Input
two_lines = ok (ascii "2") ∷ ok (ascii "robert") ∷ []

chooses :
    (prompt_username_selection_loop as_typed (ascii "bob_02") two_lines).0
    ≡ chosen (some (ascii "robert"))
unfolding prompt_username_selection_loop text_eq is_empty
chooses = refl

prompt_chosen_example :
    (ascii "robert" ≡ ascii "bob_02") ⊎ Typed as_typed (ascii "robert") two_lines
prompt_chosen_example = prompt_chosen as_typed (ascii "bob_02") (ascii "robert") two_lines chooses

suggestion_refused_example :
    (validate_username (generate_alternative_username (ascii "a_name_of_18_bytes") 1) ≡ ok tt)
    ↔ (length (ascii "a_name_of_18_bytes") ≤ 17)
suggestion_refused_example = suggestion_refused (ascii "a_name_of_18_bytes") 1 (omega arith)

runs :
    (main {R = Bytes} {W = Bytes} as_typed bob (ok (answers, [])) typed (ctrl_c ∷ [])).0
    ≡ exited (ok tt)
unfolding main new run send_client_message encode_message read_message_from_stream prefix_of
    decode_message prompt_username_selection_loop graceful_leave validate_username
runs = refl
