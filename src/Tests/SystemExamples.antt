-- ===== src/Tests/SystemExamples.antt =====
-- The two programs together at concrete inputs.
use simple_chat_ddn.Common.{◌≡◌, refl, sym, ok, [], ◌∷◌, ◌++◌, arith}
use simple_chat_ddn.Common.Text.{Bytes, ascii, text_eq}
use simple_chat_ddn.Core.Message.Server.{user_left, new, new_message}
use mathlib.Core.List.{append-nil}
use simple_chat_ddn.Core.Protocol.{encode_message}
use simple_chat_ddn.Server.Dispatcher.{shared_codec}
use simple_chat_ddn.Server.Pool.{broadcast_message}
use simple_chat_ddn.Server.Pool.Removal.{Gone, Carries}
use simple_chat_ddn.Server.Session.{chatting, ended, session_step, handle_client}
use simple_chat_ddn.Client.Commands.{
  split_space, send_client_message, handle_user_input, graceful_leave,
}
use simple_chat_ddn.System.Arrival.{handle_user_input-session_step, graceful_leave-session_step}
use simple_chat_ddn.Tests.Actors.{bob, cache, with_alice, with_alice-IsValid, client, marking_hash}
use simple_chat_ddn.Tests.Fixture.{
  client_codec, client_codec-IsLawful, server_codec, bytes_reader, bytes_reader-IsReader,
  bytes_reader-IsPrompt, bytes_writer, bytes_writer-IsWriter, list_runtime, list_runtime-IsRuntime,
  ok_eq,
}

-- bob says "hi" on a fresh stream, and then leaves.
abbrev said : Bytes
said = (handle_user_input (ascii "send hi") client).1.writer

says_hi : (handle_user_input (ascii "send " ++ ascii "hi") client).0 ≡ ok tt
unfolding handle_user_input text_eq split_space send_client_message encode_message
says_hi = refl

handle_user_input-session_step_example :
    (reader' : Bytes) × (buffer' : Bytes) × (session_step {rt = list_runtime} cache
        (chatting (said ++ (7 ∷ [])) [] bob)
        with_alice
      ≡ (
        chatting reader' buffer' bob,
        (broadcast_message (new (new_message bob (ascii "hi"))) with_alice).1,
      ))
    × (reader' ≡ 7 ∷ [])
handle_user_input-session_step_example =
    handle_user_input-session_step bytes_writer-IsWriter bytes_reader-IsReader bytes_reader-IsPrompt
      client_codec-IsLawful (ascii "hi") client cache (said ++ (7 ∷ [])) [] (7 ∷ []) bob with_alice
      says_hi (λ p e. rw (← ok_eq e) (omega arith)) refl

abbrev farewell : Bytes
farewell = (graceful_leave client).1.writer

leaves : (graceful_leave client).0 ≡ ok tt
unfolding graceful_leave send_client_message encode_message
leaves = refl

graceful_leave-session_step_example :
    let after = handle_client {rt = list_runtime} cache 3 (chatting farewell [] bob) with_alice in
    (after.0 ≡ ended (ok tt))
    × Gone list_runtime-IsRuntime bob after.1
    × Gone list_runtime-IsRuntime bob after.1
    × Carries list_runtime-IsRuntime
        (record { shared = user_left bob })
        with_alice.broadcaster
        after.1.broadcaster
graceful_leave-session_step_example =
    graceful_leave-session_step bytes_writer-IsWriter bytes_reader-IsReader bytes_reader-IsPrompt
      client_codec-IsLawful list_runtime-IsRuntime client cache farewell [] [] bob with_alice leaves
      (λ p e. rw (← ok_eq e) (omega arith)) (sym (append-nil farewell)) with_alice-IsValid
