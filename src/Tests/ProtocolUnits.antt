-- ===== src/Tests/ProtocolUnits.antt =====
-- Unit tests of chat-core/src/protocol.rs, each the conjunction of its assertions, at a codec that
-- stands for bincode.
use simple_chat_ddn.Common.{
  ◌-◌, ◌≡◌, refl, Result, ok, err, none, List, [], ◌∷◌, length, drop, take, Bool, true, false, ◌&&◌,
  not, ltb, ◌==◌, replicate,
}
use simple_chat_ddn.Common.Text.{Bytes, ascii, text_eq}
use simple_chat_ddn.Common.Map.{lookup, insert, remove}
use simple_chat_ddn.Core.Error.{ApplicationError}
use simple_chat_ddn.Core.Message.Client.{ClientMessage, join, leave, message}
use simple_chat_ddn.Core.Message.Server.{
  ServerMessage, success, error, user_name_already_taken, user_joined, user_left, deref,
}
use simple_chat_ddn.Core.Message.Server
use simple_chat_ddn.Core.MessageCache.{MessageCache, new, get, put, hash_message}
use simple_chat_ddn.Core.Protocol.{
  length_prefix, frame, encode_message, encode_message_with_cache, decode_message, prefix_of,
}
use simple_chat_ddn.Tests.Checks.{is_ok, same_name, same_client, same_server, digits_hash}
use simple_chat_ddn.Tests.Fixture.{client_codec, server_codec}

-- `decode_message(&encoded[LENGTH_PREFIX..])` gives the message back.
abbrev gives_client : ClientMessage → Result ApplicationError ClientMessage → Bool
gives_client m (ok n) = same_client m n
gives_client m (err e) = false

abbrev gives_server : ServerMessage → Result ApplicationError ServerMessage → Bool
gives_server m (ok n) = same_server m n
gives_server m (err e) = false

abbrev decodes_client : ClientMessage → Result ApplicationError Bytes → Bool
decodes_client m (ok encoded) = gives_client m (decode_message (drop length_prefix encoded))
decodes_client m (err e) = false

abbrev decodes_server : ServerMessage → Result ApplicationError Bytes → Bool
decodes_server m (ok encoded) = gives_server m (decode_message (drop length_prefix encoded))
decodes_server m (err e) = false

-- One message after the other, with one cache.
abbrev client_trips : List ClientMessage → MessageCache → Bool
client_trips [] cache = true
client_trips (m ∷ ms) cache =
    let (encoded, cache') = encode_message_with_cache m cache in
    decodes_client m encoded && client_trips ms cache'

abbrev server_trips : List ServerMessage → MessageCache → Bool
server_trips [] cache = true
server_trips (m ∷ ms) cache =
    let (encoded, cache') = encode_message_with_cache m cache in
    decodes_server m encoded && server_trips ms cache'

abbrev test_client_message_serialization_and_deserialization : Bool
test_client_message_serialization_and_deserialization =
    client_trips
      (join (ascii "testuser")
        ∷ leave (ascii "testuser")
        ∷ message (ascii "testuser") (ascii "Hello, this is a test message!")
        ∷ [])
      (new 10)

abbrev test_server_message_serialization_and_deserialization : Bool
test_server_message_serialization_and_deserialization =
    server_trips
      (success (ascii "Connection successful!")
        ∷ error (ascii "Username already taken")
        ∷ Server.message (ascii "alice") (ascii "Hello from server!")
        ∷ user_joined (ascii "newuser")
        ∷ user_left (ascii "leavinguser")
        ∷ [])
      (new 10)

abbrev test_empty_strings_in_messages : Bool
test_empty_strings_in_messages =
    client_trips (message [] (ascii "Message with empty username") ∷ message (ascii "user") [] ∷ [])
      (new 10)

abbrev test_message_type_discrimination : Bool
test_message_type_discrimination =
    client_trips
      (join (ascii "user1") ∷ leave (ascii "user2") ∷ message (ascii "user3") (ascii "test") ∷ [])
      (new 10)

test_round_trips_pass :
    test_client_message_serialization_and_deserialization
      && test_server_message_serialization_and_deserialization && test_empty_strings_in_messages
      && test_message_type_discrimination
    ≡ true
unfolding encode_message_with_cache hash_message encode_message decode_message get put new lookup
    insert remove text_eq frame
test_round_trips_pass = refl

-- The frame's first bytes tell how many follow, and the rest decodes.
abbrev framed : ClientMessage → Result ApplicationError Bytes → Bool
framed m (ok frame) =
    ltb length_prefix (length frame)
    && prefix_of (take length_prefix frame) == length frame - length_prefix
    && gives_client m (decode_message (drop length_prefix frame))
framed m (err e) = false

abbrev test_message_framing_length_prefix : Bool
test_message_framing_length_prefix =
    framed (join (ascii "test")) (encode_message_with_cache (join (ascii "test")) (new 10)).0

abbrev test_length_prefix_constants : Bool
test_length_prefix_constants =
    length_prefix == 4
    && framed (join (ascii "test")) (encode_message_with_cache (join (ascii "test")) (new 10)).0

-- Of the second input the test asserts only that decoding ends.
abbrev test_decode_message_with_invalid_data : Bool
test_decode_message_with_invalid_data = not (is_ok (decode_message {T = ClientMessage} []))

test_frames_pass :
    test_message_framing_length_prefix && test_length_prefix_constants
      && test_decode_message_with_invalid_data
    ≡ true
unfolding encode_message_with_cache hash_message encode_message decode_message get put new lookup
    insert remove text_eq frame prefix_of
test_frames_pass = refl

abbrev test_server_message_factory_methods : Bool
test_server_message_factory_methods =
    same_server (Server.new_success (ascii "Welcome!")) (success (ascii "Welcome!"))
    && same_server (Server.new_error (ascii "Error occurred")) (error (ascii "Error occurred"))
    && same_server (Server.new_message (ascii "alice") (ascii "Hello"))
        (Server.message (ascii "alice") (ascii "Hello"))
    && same_server (Server.new_user_name_already_taken (ascii "takenuser"))
        (user_name_already_taken (ascii "takenuser"))
    && same_server (Server.new_user_joined (ascii "newuser")) (user_joined (ascii "newuser"))
    && same_server (Server.new_user_left (ascii "leavinguser")) (user_left (ascii "leavinguser"))

abbrev test_shared_server_message_new : Bool
test_shared_server_message_new =
    same_name (Server.username (deref (Server.new (success (ascii "Test message"))))) none

test_factories_pass : test_server_message_factory_methods && test_shared_server_message_new ≡ true
unfolding Server.new_success Server.new_error Server.new_message Server.new_user_name_already_taken
    Server.new_user_joined Server.new_user_left Server.new Server.username deref text_eq
test_factories_pass = refl

abbrev test_long_strings_in_messages : Bool
test_long_strings_in_messages =
    client_trips (message (replicate 1000 b'a') (replicate 10000 b'b') ∷ []) (new 10)

test_long_strings_pass : test_long_strings_in_messages ≡ true
unfolding encode_message_with_cache hash_message encode_message decode_message get put new lookup
    insert remove text_eq frame
test_long_strings_pass = refl
