-- ===== src/Tests/Units.antt =====
-- Unit tests of the repository, each the conjunction of its assertions: chat-core/src/protocol.rs,
-- utils.rs, error.rs and message_cahce.rs, and chat-client/src/username_handler.rs.
use simple_chat_ddn.Common.{
  ◌≡◌, refl, Option, none, some, [], Bool, true, false, ◌&&◌, ◌||◌, not, replicate,
}
use simple_chat_ddn.Common.Text.{Bytes, ascii, text_eq, is_empty}
use simple_chat_ddn.Common.Map.{lookup, insert, remove}
use simple_chat_ddn.Core.Error.{
  display, client_read_stream_closed, incomplete_length_prefix, incomplete_pyaload,
  username_not_found,
}
use simple_chat_ddn.Core.Message.Client.{ClientMessage, join, leave}
use simple_chat_ddn.Core.Message.Client
use simple_chat_ddn.Core.Message.Server.{
  ServerMessage, success, error, user_name_already_taken, user_joined, user_left,
}
use simple_chat_ddn.Core.Message.Server
use simple_chat_ddn.Core.MessageCache.{MessageCache, new, get, put}
use simple_chat_ddn.Core.Utils.{validate_username, is_valid_message}
use simple_chat_ddn.Client.Run.{contains}
use simple_chat_ddn.Client.Usernames.{generate_alternative_username}
use simple_chat_ddn.Common.Decimal.{decimal, decimal_02}
use simple_chat_ddn.Tests.Checks.{is_ok, is_none, same, same_name}
use simple_chat_ddn.Tests.Fixture.{length_hash}

-- protocol.rs: the name that a message carries.
abbrev test_username_extraction : Bool
test_username_extraction =
    same_name (Client.username (join (ascii "alice"))) (some (ascii "alice"))
    && same_name (Client.username (leave (ascii "bob"))) (some (ascii "bob"))
    && same_name (Client.username (Client.message (ascii "charlie") (ascii "Hello, world!")))
        (some (ascii "charlie"))
    && same_name (Server.username (Server.message (ascii "alice") (ascii "Hi everyone!")))
        (some (ascii "alice"))
    && same_name (Server.username (user_joined (ascii "bob"))) (some (ascii "bob"))
    && same_name (Server.username (user_left (ascii "charlie"))) (some (ascii "charlie"))
    && same_name (Server.username (success (ascii "Welcome to the chat!"))) none
    && same_name (Server.username (error (ascii "Invalid username"))) none

test_username_extraction_passes : test_username_extraction ≡ true
unfolding text_eq Client.username Server.username
test_username_extraction_passes = refl

-- protocol.rs: the associated functions.
abbrev test_client_message_factory_methods : Bool
test_client_message_factory_methods =
    joined (Client.new_join (ascii "alice"))
    && went (Client.new_leave (ascii "bob"))
    && said (Client.new_message (ascii "charlie") (ascii "Hello"))
  where
    joined : ClientMessage → Bool
    joined (join u) = same u (ascii "alice")
    joined m = false

    went : ClientMessage → Bool
    went (leave u) = same u (ascii "bob")
    went m = false

    said : ClientMessage → Bool
    said (Client.message u c) = same u (ascii "charlie") && same c (ascii "Hello")
    said m = false

-- utils.rs
abbrev test_validate_username : Bool
test_validate_username =
    is_ok (validate_username (ascii "alice"))
    && is_ok (validate_username (ascii "user123"))
    && is_ok (validate_username (ascii "test_user"))
    && is_ok (validate_username (ascii "a"))
    && not (is_ok (validate_username []))
    && not (is_ok (validate_username (replicate 31 b'a')))
    && not (is_ok (validate_username (replicate 21 b'a')))

abbrev test_is_valid_message : Bool
test_is_valid_message =
    is_valid_message (ascii "Hello")
    && is_valid_message (ascii "a")
    && is_valid_message (ascii "This is a test message")
    && not (is_valid_message [])

test_utils_pass : test_validate_username && test_is_valid_message ≡ true
unfolding validate_username is_valid_message is_empty
test_utils_pass = refl

-- error.rs: the texts of the errors that carry nothing.
abbrev test_error_texts : Bool
test_error_texts =
    contains (ascii "Client stream closed") (display client_read_stream_closed)
    && contains (ascii "Incomplete length prefix") (display incomplete_length_prefix)
    && contains (ascii "Incomplete payload") (display incomplete_pyaload)
    && contains (ascii "username not found") (display username_not_found)

test_error_texts_pass : test_error_texts ≡ true
unfolding contains display
test_error_texts_pass = refl

-- username_handler.rs
abbrev test_generate_alternative_username : Bool
test_generate_alternative_username =
    same (generate_alternative_username (ascii "testuser") 0) (ascii "testuser_01")
    && same (generate_alternative_username (ascii "testuser") 1) (ascii "testuser_02")
    && same (generate_alternative_username (ascii "testuser") 9) (ascii "testuser_10")
    && same (generate_alternative_username (ascii "user@domain") 0) (ascii "user@domain_01")
    && same (generate_alternative_username [] 0) (ascii "_01")

test_generate_alternative_username_passes : test_generate_alternative_username ≡ true
unfolding text_eq generate_alternative_username decimal_02 decimal
test_generate_alternative_username_passes = refl

-- message_cahce.rs: two entries fit, and a third takes the place of one of them. The hashes are
-- three numbers.
same_frame : Option Bytes → Bytes → Bool
same_frame none b = false
same_frame (some a) b = same a b

abbrev three : MessageCache
three = put 3 (ascii "message3") (put 2 (ascii "message2") (put 1 (ascii "message1") (new 2)))

abbrev test_message_cache_capacity_limits : Bool
test_message_cache_capacity_limits =
    same_frame (get 1 (put 2 (ascii "message2") (put 1 (ascii "message1") (new 2))))
      (ascii "message1")
    && same_frame (get 2 (put 2 (ascii "message2") (put 1 (ascii "message1") (new 2))))
        (ascii "message2")
    && same_frame (get 3 three) (ascii "message3")
    && (is_none (get 1 three) || is_none (get 2 three))

test_message_cache_capacity_limits_passes : test_message_cache_capacity_limits ≡ true
unfolding same_frame text_eq get put new lookup insert remove
test_message_cache_capacity_limits_passes = refl
