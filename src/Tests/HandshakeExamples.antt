-- ===== src/Tests/HandshakeExamples.antt =====
-- The theorem on joining at a concrete input.
use simple_chat_ddn.Common.{◌≡◌, refl, ok, [], ◌∷◌, ◌++◌, false, arith}
use simple_chat_ddn.Common.Text.{Bytes, text_eq}
use simple_chat_ddn.Common.Map.{lookup, insert}
use simple_chat_ddn.Core.Message.Client.{join}
use simple_chat_ddn.Core.Message.Server.{new_user_joined, new as news}
use simple_chat_ddn.Core.Protocol.{encode_message}
use simple_chat_ddn.Core.Transport.{write_message_to_stream}
use simple_chat_ddn.Core.Utils.{validate_username}
use simple_chat_ddn.Server.Dispatcher.{welcome}
use simple_chat_ddn.Server.Pool.{has, new, create_dispatcher, broadcast_message}
use simple_chat_ddn.Server.Session.{joining, chatting, handle_client}
use simple_chat_ddn.Client.Commands.{send_client_message}
use simple_chat_ddn.Client.Join.{returned}
use simple_chat_ddn.Client.Join
use simple_chat_ddn.Client.Join.Welcome.{first}
use simple_chat_ddn.System.Handshake.{new-handle_client}
use simple_chat_ddn.Tests.Actors.{bob, cache, with_alice}
use simple_chat_ddn.Tests.Fixture.{
  client_codec, client_codec-IsLawful, server_codec, server_codec-IsLawful, bytes_reader,
  bytes_reader-IsReader, bytes_reader-IsPrompt, bytes_writer, bytes_writer-IsWriter, ok_eq,
}

-- What bob's client sends, and what it finds on its stream.
abbrev asked : Bytes
asked = (send_client_message (join bob) (first {R = Bytes} {W = Bytes} bob [] [])).1.writer

abbrev greeting : Bytes
greeting = (write_message_to_stream {W = Bytes} [] (welcome bob)).1

asks :
    (send_client_message (join bob) (first {R = Bytes} {W = Bytes} bob (greeting ++ (9 ∷ [])) [])).0
    ≡ ok tt
unfolding send_client_message encode_message
asks = refl

greets : (write_message_to_stream {W = Bytes} [] (welcome bob)).0 ≡ ok tt
unfolding write_message_to_stream encode_message
greets = refl

bob_valid : validate_username bob ≡ ok tt
unfolding validate_username
bob_valid = refl

bob_free : has bob with_alice ≡ false
unfolding has lookup text_eq create_dispatcher insert new
bob_free = refl

arrives :
    [] ++ (asked ++ (8 ∷ []))
    ≡ (send_client_message (join bob) (first {R = Bytes} bob (greeting ++ (9 ∷ [])) [])).1.writer
      ++ (8 ∷ [])
unfolding send_client_message encode_message
arrives = refl

new-handle_client_example :
    let after = handle_client {R = Bytes} cache 3 (joining (asked ++ (8 ∷ [])) [] []) with_alice in
    let joined = Join.new {R = Bytes} {W = Bytes} (λ l. l) bob (greeting ++ (9 ∷ [])) [] [] in
    (reader' : Bytes) × (buffer' : Bytes) × (after.0 ≡ chatting reader' buffer' bob)
    × (after.1
        ≡ (broadcast_message
            (news (new_user_joined bob))
            (create_dispatcher bob [] cache with_alice)).1)
    × (reader' ≡ 8 ∷ [])
    × (joined.0 ≡ returned (ok tt))
    × (joined.1.username ≡ bob)
    × (joined.1.reader ≡ 9 ∷ [])
unfolding welcome
new-handle_client_example =
    new-handle_client bytes_writer-IsWriter bytes_reader-IsReader bytes_reader-IsPrompt
      bytes_writer-IsWriter bytes_reader-IsReader bytes_reader-IsPrompt client_codec-IsLawful
      server_codec-IsLawful (λ l. l) bob (greeting ++ (9 ∷ [])) [] [] cache (asked ++ (8 ∷ [])) []
      [] (8 ∷ []) (9 ∷ []) with_alice asks (λ p e. rw (← ok_eq e) (omega arith)) arrives bob_valid
      bob_free greets (λ p e. rw (← ok_eq e) (omega arith)) refl
