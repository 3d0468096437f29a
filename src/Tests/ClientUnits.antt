-- ===== src/Tests/ClientUnits.antt =====
-- Unit tests of chat-client/src/client.rs, at a codec that stands for bincode.
use simple_chat_ddn.Common.{
  ℕ, ◌-◌, ◌≡◌, refl, Result, ok, err, Option, none, some, [], ◌∷◌, ◌++◌, length, drop, take,
  replicate, Bool, true, false, ◌&&◌, ltb, leb, ◌==◌,
}
use simple_chat_ddn.Common.Text.{Text, Bytes, ascii, text_eq}
use simple_chat_ddn.Core.Error.{ApplicationError}
use simple_chat_ddn.Core.Message.Client.{ClientMessage, join, leave, message, username}
use simple_chat_ddn.Core.Message.Server.{ServerMessage, success, error, user_joined, user_left}
use simple_chat_ddn.Core.Message.Server
use simple_chat_ddn.Core.Protocol.{frame, encode_message, decode_message, prefix_of}
use simple_chat_ddn.Client.Commands.{split_space}
use simple_chat_ddn.Tests.Checks.{same, same_name, same_client}
use simple_chat_ddn.Tests.Fixture.{client_codec, server_codec}

abbrev test_client_message_username_extraction : Bool
test_client_message_username_extraction =
    same_name (username (join (ascii "alice"))) (some (ascii "alice"))
    && same_name (username (leave (ascii "bob"))) (some (ascii "bob"))
    && same_name (username (message (ascii "charlie") (ascii "Hello"))) (some (ascii "charlie"))

test_client_message_username_extraction_passes : test_client_message_username_extraction ≡ true
unfolding username text_eq
test_client_message_username_extraction_passes = refl

abbrev gives_client : ClientMessage → Result ApplicationError ClientMessage → Bool
gives_client m (ok n) = same_client m n
gives_client m (err e) = false

-- The pairs of the `match` that does not panic.
abbrev same_kind : ServerMessage → ServerMessage → Bool
same_kind (Server.message u c) (Server.message v d) = true
same_kind (error r) (error s) = true
same_kind (success m) (success n) = true
same_kind (user_joined u) (user_joined v) = true
same_kind (user_left u) (user_left v) = true
same_kind m n = false

abbrev gives_server : ServerMessage → Result ApplicationError ServerMessage → Bool
gives_server m (ok n) = same_kind m n
gives_server m (err e) = false

-- The frame is at least so long, and its payload decodes to the message.
abbrev client_trip : ℕ → ClientMessage → Result ApplicationError Bytes → Bool
client_trip n m (ok encoded) =
    leb n (length encoded) && gives_client m (decode_message (drop 4 encoded))
client_trip n m (err e) = false

abbrev server_trip : ServerMessage → Result ApplicationError Bytes → Bool
server_trip m (ok encoded) =
    ltb 4 (length encoded) && gives_server m (decode_message (drop 4 encoded))
server_trip m (err e) = false

abbrev sends : ClientMessage → Bool
sends m = client_trip 5 m (encode_message m)

abbrev receives : ServerMessage → Bool
receives m = server_trip m (encode_message m)

abbrev test_client_message_serialization : Bool
test_client_message_serialization =
    sends (join (ascii "alice"))
    && sends (leave (ascii "bob"))
    && sends (message (ascii "charlie") (ascii "Hello, world!"))

abbrev test_server_message_handling : Bool
test_server_message_handling =
    receives (Server.message (ascii "alice") (ascii "Hello everyone!"))
    && receives (error (ascii "Username already taken"))
    && receives (success (ascii "Welcome to the chat!"))
    && receives (user_joined (ascii "newuser"))
    && receives (user_left (ascii "leavinguser"))

-- A content of so many letters.
abbrev long_content : ℕ → ClientMessage → Bool
long_content n (message u c) = same u (ascii "largeuser") && length c == n
long_content n m = false

abbrev large_trip : Result ApplicationError Bytes → Bool
large_trip (ok encoded) = ltb 10000 (length encoded) && decoded (decode_message (drop 4 encoded))
  where
    decoded : Result ApplicationError ClientMessage → Bool
    decoded (ok m) = long_content 10000 m
    decoded (err e) = false
large_trip (err e) = false

abbrev test_large_message_serialization : Bool
test_large_message_serialization =
    large_trip (encode_message (message (ascii "largeuser") (replicate 10000 b'x')))

test_large_message_serialization_passes : test_large_message_serialization ≡ true
unfolding encode_message decode_message frame text_eq
test_large_message_serialization_passes = refl

abbrev prefixed : Result ApplicationError Bytes → Bool
prefixed (ok encoded) = ltb 4 (length encoded) && prefix_of (take 4 encoded) == length encoded - 4
prefixed (err e) = false

abbrev test_message_length_prefix : Bool
test_message_length_prefix = prefixed (encode_message (message (ascii "test") (ascii "Hello")))

abbrev test_empty_message_serialization : Bool
test_empty_message_serialization = client_trip 4 (message [] []) (encode_message (message [] []))

abbrev same_frames : Result ApplicationError Bytes → Result ApplicationError Bytes → Bool
same_frames (ok f) (ok g) = same f g
same_frames _ _ = false

abbrev test_message_equality : Bool
test_message_equality =
    same_frames (encode_message (message (ascii "alice") (ascii "Hello")))
      (encode_message (message (ascii "alice") (ascii "Hello")))

-- The bytes of the signs after the word.
abbrev signs : Text
signs =
    ascii "Unicode: "
    ++ (0xf0 ∷ 0x9f ∷ 0x9a ∷ 0x80 ∷ 0xe2 ∷ 0x9c ∷ 0xa8 ∷ 0xf0 ∷ 0x9f ∷ 0x8e ∷ 0x89 ∷ [])

abbrev test_content_validation_edge_cases : Bool
test_content_validation_edge_cases =
    sends (message (ascii "testuser") (ascii "Hello world"))
    && sends (message (ascii "testuser") [])
    && sends (message (ascii "testuser") (replicate 1000 b'a'))
    && sends (message (ascii "testuser") (ascii "Special chars: !@#$%^&*()"))
    && sends (message (ascii "testuser") signs)

abbrev encodes : ClientMessage → Bool
encodes m = longer (encode_message m)
  where
    longer : Result ApplicationError Bytes → Bool
    longer (ok encoded) = ltb 4 (length encoded)
    longer (err e) = false

abbrev test_username_validation_edge_cases : Bool
test_username_validation_edge_cases =
    encodes (join (ascii "alice"))
    && encodes (join (ascii "user123"))
    && encodes (join (ascii "test_user"))
    && encodes (join (replicate 50 b'a'))
    && encodes (join [])
    && encodes (join (replicate 1000 b'a'))

test_frames_pass :
    test_client_message_serialization && test_server_message_handling && test_message_length_prefix
      && test_empty_message_serialization && test_message_equality
      && test_content_validation_edge_cases && test_username_validation_edge_cases
    ≡ true
unfolding encode_message decode_message frame prefix_of text_eq
test_frames_pass = refl

-- Where two parts are expected; a split has one part in any case.
abbrev splits : Text → Text → Text → Bool
splits input command content = parts (split_space input)
  where
    parts : Text × Option Text → Bool
    parts (front, some back) = same front command && same back content
    parts (front, none) = false

abbrev test_command_parsing_logic : Bool
test_command_parsing_logic =
    splits (ascii "send Hello world") (ascii "send") (ascii "Hello world")
    && splits (ascii "send ") (ascii "send") []

test_command_parsing_logic_passes : test_command_parsing_logic ≡ true
unfolding split_space text_eq
test_command_parsing_logic_passes = refl
