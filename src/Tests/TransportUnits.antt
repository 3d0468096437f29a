-- ===== src/Tests/TransportUnits.antt =====
-- Unit tests of chat-core/src/transport_layer.rs: what one end writes before it closes is what the
-- other end finds on its stream.
use simple_chat_ddn.Common.{
  ◌≡◌, refl, Result, ok, err, [], ◌∷◌, ◌++◌, length, replicate, Bool, true, false, ◌&&◌, not, leb,
  ltb,
}
use simple_chat_ddn.Common.Text.{Bytes, ascii, text_eq}
use simple_chat_ddn.Core.Error.{
  ApplicationError, client_read_stream_closed, incomplete_length_prefix,
}
use simple_chat_ddn.Core.Message.Client.{ClientMessage, join, leave, message}
use simple_chat_ddn.Core.Message.Server.{ServerMessage, success}
use simple_chat_ddn.Core.Message.Server
use simple_chat_ddn.Core.Protocol.{frame, encode_message, decode_message, prefix_of}
use simple_chat_ddn.Core.Transport.{read_message_from_stream, write_message_to_stream}
use simple_chat_ddn.Tests.Checks.{is_ok, same, same_client}
use simple_chat_ddn.Tests.Fixture.{client_codec, server_codec, bytes_reader, bytes_writer}

-- The stream's bytes, read into a buffer of 4096.
abbrev received : Bytes → Result ApplicationError ClientMessage
received stream = (read_message_from_stream stream (replicate 4096 0)).0

abbrev is_message : ClientMessage → Result ApplicationError ClientMessage → Bool
is_message m (ok n) = same_client m n
is_message m (err e) = false

abbrev is_closed : Result ApplicationError ClientMessage → Bool
is_closed (err client_read_stream_closed) = true
is_closed _ = false

abbrev is_incomplete_prefix : Result ApplicationError ClientMessage → Bool
is_incomplete_prefix (err incomplete_length_prefix) = true
is_incomplete_prefix _ = false

abbrev written : ServerMessage → Bytes
written m = (write_message_to_stream {W = Bytes} [] m).1

abbrev is_frame : Bytes → Result ApplicationError Bytes → Bool
is_frame b (ok f) = same b f
is_frame b (err e) = false

abbrev sends : ClientMessage → Bool
sends m = is_message m (received (write_message_to_stream {W = Bytes} [] m).1)

abbrev test_read_message_from_stream_success : Bool
test_read_message_from_stream_success = sends (join (ascii "testuser"))

abbrev test_read_message_from_stream_client_closed : Bool
test_read_message_from_stream_client_closed = is_closed (received [])

abbrev test_read_message_from_stream_incomplete_length_prefix : Bool
test_read_message_from_stream_incomplete_length_prefix =
    is_incomplete_prefix (received (0 ∷ 0 ∷ []))

abbrev test_read_message_from_stream_incomplete_payload : Bool
test_read_message_from_stream_incomplete_payload =
    not (is_ok (received ((0 ∷ 0 ∷ 0 ∷ 0x64 ∷ []) ++ replicate 10 0xff)))

abbrev test_round_trip_encoding_decoding : Bool
test_round_trip_encoding_decoding =
    sends (join (ascii "user1"))
    && sends (leave (ascii "user2"))
    && sends (message (ascii "user3") (ascii "Hello, world!"))

abbrev test_write_message_to_stream_success : Bool
test_write_message_to_stream_success =
    is_frame (written (success (ascii "Test message")))
      (encode_message (success (ascii "Test message")))

abbrev test_write_message_to_stream_with_empty_message : Bool
test_write_message_to_stream_with_empty_message =
    is_frame (written (Server.message [] [])) (encode_message (Server.message [] []))
    && leb 4 (length (written (Server.message [] [])))

test_transport_passes :
    test_read_message_from_stream_success && test_read_message_from_stream_client_closed
      && test_read_message_from_stream_incomplete_length_prefix
      && test_read_message_from_stream_incomplete_payload && test_round_trip_encoding_decoding
      && test_write_message_to_stream_success && test_write_message_to_stream_with_empty_message
    ≡ true
unfolding read_message_from_stream write_message_to_stream encode_message decode_message frame
    prefix_of text_eq
test_transport_passes = refl

abbrev large : ServerMessage
large = Server.message (ascii "largeuser") (replicate 10000 b'x')

abbrev test_write_message_to_stream_with_large_message : Bool
test_write_message_to_stream_with_large_message =
    is_frame (written large) (encode_message large) && ltb 10000 (length (written large))

test_large_message_passes : test_write_message_to_stream_with_large_message ≡ true
unfolding write_message_to_stream encode_message frame text_eq
test_large_message_passes = refl
