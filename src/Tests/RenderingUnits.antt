-- ===== src/Tests/RenderingUnits.antt =====
-- Unit tests of chat-client/src/message_handler.rs.
use simple_chat_ddn.Common.{◌≡◌, refl, Result, ok, err, [], ◌∷◌, Bool, true, false, ◌&&◌, not}
use simple_chat_ddn.Common.Text.{Bytes, ascii}
use simple_chat_ddn.Core.Error.{ApplicationError}
use simple_chat_ddn.Core.Message.Server.{
  success, error, user_name_already_taken, user_joined, user_left, message,
}
use simple_chat_ddn.Core.Protocol.{frame, encode_message, decode_message, prefix_of}
use simple_chat_ddn.Client.Messages.{handle_server_message}
use simple_chat_ddn.Tests.Checks.{is_ok}
use simple_chat_ddn.Tests.Fixture.{server_codec}

abbrev handled : Result ApplicationError Bytes → Bool
handled (ok encoded) = is_ok (handle_server_message encoded)
handled (err e) = false

abbrev test_handle_server_message_message : Bool
test_handle_server_message_message =
    handled (encode_message (message (ascii "alice") (ascii "Hello everyone!")))

abbrev test_handle_server_message_error : Bool
test_handle_server_message_error = handled (encode_message (error (ascii "Test error")))

abbrev test_handle_server_message_success : Bool
test_handle_server_message_success = handled (encode_message (success (ascii "Welcome to chat!")))

abbrev test_handle_server_message_user_joined : Bool
test_handle_server_message_user_joined = handled (encode_message (user_joined (ascii "bob")))

abbrev test_handle_server_message_user_left : Bool
test_handle_server_message_user_left = handled (encode_message (user_left (ascii "charlie")))

abbrev test_handle_server_message_username_not_found : Bool
test_handle_server_message_username_not_found =
    handled (encode_message (user_name_already_taken (ascii "takenuser")))

abbrev test_handle_server_message_invalid_data : Bool
test_handle_server_message_invalid_data =
    not (is_ok (handle_server_message (0xff ∷ 0xff ∷ 0xff ∷ 0xff ∷ [])))

abbrev test_handle_server_message_short_data : Bool
test_handle_server_message_short_data = not (is_ok (handle_server_message (0 ∷ 0 ∷ [])))

test_handle_server_message_passes :
    test_handle_server_message_message && test_handle_server_message_error
      && test_handle_server_message_success && test_handle_server_message_user_joined
      && test_handle_server_message_user_left && test_handle_server_message_username_not_found
      && test_handle_server_message_invalid_data && test_handle_server_message_short_data
    ≡ true
unfolding handle_server_message encode_message decode_message frame prefix_of
test_handle_server_message_passes = refl
