-- ===== src/Tests/ServerExamples.antt =====
-- The theorems on chat-server at concrete inputs.
use simple_chat_ddn.Common.{ℕ, ◌≡◌, ◌≢◌, refl, Result, ok, some, [], ◌++◌, false}
use simple_chat_ddn.Common.Text.{Text, Bytes, text_eq}
use simple_chat_ddn.Common.Map.{lookup, insert}
use simple_chat_ddn.Core.Error.{ApplicationError}
use simple_chat_ddn.Core.Message.Client.{ClientMessage, join, leave}
use simple_chat_ddn.Core.Message.Server.{user_name_already_taken, user_left}
use simple_chat_ddn.Core.Protocol.{frame, encode_message}
use simple_chat_ddn.Core.Utils.{validate_username}
use simple_chat_ddn.Server.Dispatcher.{Dispatcher, welcome}
use simple_chat_ddn.Core.Transport.{write_message_to_stream}
use simple_chat_ddn.Server.Pool.{new, has, create_dispatcher}
use simple_chat_ddn.Server.Pool.Removal.{Gone, Carries}
use simple_chat_ddn.Server.Session.{
  joining, registering, ended, join_with, chat_with, register, handle_client, reply,
}
use simple_chat_ddn.Server.Session.Chat.{chat_leave}
use simple_chat_ddn.Server.Session.Joining.{
  join_with_registering, Refused, join_with-Refused, Waits, handle_client_spins,
}
use simple_chat_ddn.Server.Session.Interleaving.{register_twice}
use simple_chat_ddn.Tests.Actors.{alice, bob, cache, no_clients, with_alice, with_alice-IsValid}
use simple_chat_ddn.Tests.Fixture.{
  client_codec, server_codec, bytes_reader, bytes_reader-IsReader, bytes_reader-IsPrompt,
  bytes_writer, bytes_writer-IsWriter, length_hash, all_of, encode_server, list_runtime,
  list_runtime-IsRuntime,
}

register_twice_example :
    let p = (register {R = Bytes} {rt = list_runtime} cache [] [] [] alice no_clients).1 in
    let q = (register {R = Bytes} cache [] [] [] alice p).1 in
    (t t' : ℕ) × (j j' : Dispatcher ℕ Bytes) × (list_runtime-IsRuntime.unaborted q.executor t
      ≡ some j)
    × (list_runtime-IsRuntime.unaborted q.executor t' ≡ some j')
    × (j.channel_owner ≡ alice)
    × (j'.channel_owner ≡ alice)
    × (t ≢ t')
    × (lookup text_eq alice q.dispatchers ≡ some t')
register_twice_example =
    register_twice list_runtime-IsRuntime cache [] [] [] [] [] [] alice no_clients

chat_leave_example :
    let (s, pool₁) = chat_with {R = Bytes} (ok (leave bob)) [] [] alice with_alice in
    let (s', pool') = handle_client cache 2 s pool₁ in
    (s' ≡ ended (ok tt))
    × Gone list_runtime-IsRuntime bob pool'
    × Gone list_runtime-IsRuntime alice pool'
    × Carries list_runtime-IsRuntime
        (record { shared = user_left bob })
        with_alice.broadcaster
        pool'.broadcaster
chat_leave_example =
    chat_leave list_runtime-IsRuntime cache [] [] alice bob with_alice with_alice-IsValid

accepts_bob :
    join_with {R = Bytes} {rt = list_runtime} (ok (join bob)) [] [] [] with_alice
    ≡ registering [] [] [] bob
unfolding join_with has lookup text_eq validate_username create_dispatcher insert new
accepts_bob = refl

join_with_registering_example :
    (◌≡◌ {A = Result ApplicationError ClientMessage} (ok (join bob)) (ok (join bob)))
    × (validate_username bob ≡ ok tt)
    × (has bob with_alice ≡ false)
join_with_registering_example =
    join_with_registering (ok (join bob)) [] [] [] [] [] [] with_alice bob accepts_bob

alice-Refused : Refused (join alice) (user_name_already_taken alice) with_alice
unfolding has lookup text_eq validate_username create_dispatcher insert new
alice-Refused = (refl, refl, refl)

reply_goes : (reply {W = Bytes} (user_name_already_taken alice) []).0 ≡ ok tt
unfolding reply encode_message
reply_goes = refl

join_with-Refused_example :
    (p : Bytes) × (s' : Bytes) × (join_with {R = Bytes} (ok (join alice)) [] [] [] with_alice
      ≡ joining [] s' [])
    × (◌≡◌ {A = Result Text Bytes} (ok (encode_server (user_name_already_taken alice))) (ok p))
    × (s' ≡ [] ++ frame p)
join_with-Refused_example =
    join_with-Refused bytes_writer-IsWriter (join alice) (user_name_already_taken alice) [] [] []
      with_alice alice-Refused reply_goes

handle_client_spins_example :
    Waits all_of (handle_client cache 5 (joining [] [] []) no_clients).0
    × ((handle_client {R = Bytes} cache 5 (joining [] [] []) no_clients).1 ≡ no_clients)
handle_client_spins_example =
    handle_client_spins bytes_reader-IsReader bytes_reader-IsPrompt cache 5 (joining [] [] [])
      no_clients refl

abbrev to_alice : Dispatcher ℕ Bytes
to_alice = record { rec = 0; channel_owner = alice; writer = []; cache = cache }

welcomes : (write_message_to_stream {W = Bytes} to_alice.writer (welcome alice)).0 ≡ ok tt
unfolding write_message_to_stream encode_message
welcomes = refl
