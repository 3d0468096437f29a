-- ===== src/Tests/ServerUnits.antt =====
-- Unit tests of chat-server/src/server.rs and broadcast_pool.rs, over a channel and an executor that
-- stand for tokio's.
use simple_chat_ddn.Common.{
  ℕ, ◌≡◌, refl, Option, none, some, List, [], Bool, true, false, ◌&&◌, not, ◌==◌,
}
use simple_chat_ddn.Common.Text.{Text, Bytes, ascii, is_empty}
use simple_chat_ddn.Common.Map.{lookup}
use simple_chat_ddn.Core.Error.{
  display, client_read_stream_closed, incomplete_length_prefix, incomplete_pyaload,
  username_not_found,
}
use simple_chat_ddn.Core.Message.Server.{
  SharedServerMessage, success, error, user_joined, user_left, message, username,
}
use simple_chat_ddn.Server.Dispatcher.{Dispatcher}
use simple_chat_ddn.Server.Pool.{BroadcastPool, has, destroy_dispatcher, shutdown}
use simple_chat_ddn.Server.Pool
use simple_chat_ddn.Server.Run.{ChatServer, new}
use simple_chat_ddn.Tests.Checks.{is_none}
use simple_chat_ddn.Tests.Fixture.{list_runtime}

-- No removal waits for its iterator.
abbrev never : Text → Bool
never u = false

abbrev channel : ℕ → ℕ × List SharedServerMessage
channel capacity = (0, [])

abbrev executor : ℕ × (ℕ → Option (Dispatcher ℕ Bytes))
executor = (0, λ t. none)

abbrev server : ℕ → ChatServer list_runtime
server n = new channel executor n

abbrev test_server_creation : Bool
test_server_creation = (server 100).max_connections == 100

abbrev test_server_creation_with_zero_connections : Bool
test_server_creation_with_zero_connections = (server 0).max_connections == 0

abbrev test_multiple_server_instances : Bool
test_multiple_server_instances =
    (server 50).max_connections == 50 && (server 100).max_connections == 100

abbrev test_large_server_capacity : Bool
test_large_server_capacity = (server 1_000_000).max_connections == 1_000_000

abbrev test_graceful_shutdown : Bool
test_graceful_shutdown = not (is_none (shutdown never (server 10).broadcast_pool))

test_server_passes :
    test_server_creation && test_server_creation_with_zero_connections
      && test_multiple_server_instances && test_large_server_capacity && test_graceful_shutdown
    ≡ true
unfolding new shutdown
test_server_passes = refl

abbrev test_application_error_variants : Bool
test_application_error_variants =
    not (is_empty (display client_read_stream_closed))
    && not (is_empty (display incomplete_length_prefix))
    && not (is_empty (display incomplete_pyaload))
    && not (is_empty (display username_not_found))

test_application_error_variants_passes : test_application_error_variants ≡ true
unfolding display is_empty
test_application_error_variants_passes = refl

abbrev is_named : Option Text → Bool
is_named none = false
is_named (some u) = not (is_empty u)

abbrev test_server_message_username_extraction_comprehensive : Bool
test_server_message_username_extraction_comprehensive =
    is_named (username (message (ascii "alice") (ascii "Hello")))
    && is_named (username (user_joined (ascii "bob")))
    && is_named (username (user_left (ascii "charlie")))
    && is_none (username (success (ascii "Welcome!")))
    && is_none (username (error (ascii "Error occurred")))

test_username_extraction_passes : test_server_message_username_extraction_comprehensive ≡ true
unfolding username is_empty
test_username_extraction_passes = refl

abbrev pool : BroadcastPool list_runtime
pool = Pool.new {W = Bytes} (channel 10) executor

abbrev test_broadcast_pool_has : Bool
test_broadcast_pool_has = not (has (ascii "testuser") pool)

abbrev test_broadcast_pool_shutdown : Bool
test_broadcast_pool_shutdown = not (is_none (shutdown never pool))

test_broadcast_pool_passes : test_broadcast_pool_has && test_broadcast_pool_shutdown ≡ true
unfolding Pool.new has shutdown lookup
test_broadcast_pool_passes = refl
