-- ===== src/Tests/DispatcherUnits.antt =====
-- Unit tests of chat-server/src/broadcast.rs, at a codec that stands for bincode.
use simple_chat_ddn.Common.{
  ℕ, ◌≡◌, refl, Result, ok, err, [], length, drop, Bool, true, false, ◌&&◌, not, leb, ltb, ◌==◌,
  replicate,
}
use simple_chat_ddn.Common.Text.{Bytes, ascii, text_eq}
use simple_chat_ddn.Core.Error.{ApplicationError}
use simple_chat_ddn.Core.Message.Server.{
  ServerMessage, success, error, user_joined, user_left, message, username,
}
use simple_chat_ddn.Core.Protocol.{frame, encode_message, decode_message}
use simple_chat_ddn.Tests.Checks.{is_none, same, same_server}
use simple_chat_ddn.Tests.Fixture.{server_codec}

abbrev test_message_username_extraction : Bool
test_message_username_extraction =
    not (is_none (username (message (ascii "alice") (ascii "Hello"))))
    && not (is_none (username (user_joined (ascii "bob"))))
    && not (is_none (username (user_left (ascii "charlie"))))
    && is_none (username (success (ascii "Welcome!")))
    && is_none (username (error (ascii "Error occurred")))

test_message_username_extraction_passes : test_message_username_extraction ≡ true
unfolding username
test_message_username_extraction_passes = refl

abbrev gives : ServerMessage → Result ApplicationError ServerMessage → Bool
gives m (ok n) = same_server m n
gives m (err e) = false

abbrev trip : ℕ → ServerMessage → Result ApplicationError Bytes → Bool
trip n m (ok encoded) = leb n (length encoded) && gives m (decode_message (drop 4 encoded))
trip n m (err e) = false

abbrev sends : ServerMessage → Bool
sends m = trip 5 m (encode_message m)

abbrev test_message_serialization : Bool
test_message_serialization =
    sends (message (ascii "alice") (ascii "Hello, world!"))
    && sends (error (ascii "Test error"))
    && sends (success (ascii "Welcome to the chat!"))
    && sends (user_joined (ascii "newuser"))
    && sends (user_left (ascii "leavinguser"))

abbrev test_empty_message_serialization : Bool
test_empty_message_serialization = trip 4 (message [] []) (encode_message (message [] []))

abbrev same_frames : Result ApplicationError Bytes → Result ApplicationError Bytes → Bool
same_frames (ok f) (ok g) = same f g
same_frames _ _ = false

abbrev test_message_equality : Bool
test_message_equality =
    same_frames (encode_message (message (ascii "alice") (ascii "Hello")))
      (encode_message (message (ascii "alice") (ascii "Hello")))

test_frames_pass :
    test_message_serialization && test_empty_message_serialization && test_message_equality ≡ true
unfolding encode_message decode_message frame text_eq
test_frames_pass = refl

abbrev large_trip : Result ApplicationError Bytes → Bool
large_trip (ok encoded) = ltb 10000 (length encoded) && decoded (decode_message (drop 4 encoded))
  where
    large : ServerMessage → Bool
    large (message u c) = same u (ascii "largeuser") && length c == 10000
    large m = false

    decoded : Result ApplicationError ServerMessage → Bool
    decoded (ok m) = large m
    decoded (err e) = false
large_trip (err e) = false

abbrev test_large_message_serialization : Bool
test_large_message_serialization =
    large_trip (encode_message (message (ascii "largeuser") (replicate 10000 b'x')))

test_large_message_serialization_passes : test_large_message_serialization ≡ true
unfolding encode_message decode_message frame text_eq
test_large_message_serialization_passes = refl
