-- ===== src/Client/Messages/Frames.antt =====
-- What the client makes of one chunk from the server.
use simple_chat_ddn.Common.{
  ◌+◌, ◌^◌, ◌<◌, ◌≤◌, ◌≡◌, ok, err, ◌++◌, length, take, drop, arith, length-append, take-append,
  le→ltb_false, lt→ltb,
}
use simple_chat_ddn.Common.Text.{Bytes, ascii}
use simple_chat_ddn.Core.Bincode.{Codec, IsLawful}
use simple_chat_ddn.Core.Message.Server.{ServerMessage}
use simple_chat_ddn.Core.Protocol.{length_prefix, prefix_of, frame, to_be_bytes}
use simple_chat_ddn.Core.Protocol.Framing.{prefix-frame, decode_message_payload}
use simple_chat_ddn.Client.Messages.{handle_server_message, render, rendered}

module _ ⦃c : Codec ServerMessage⦄ where
  -- The payload that the code cuts out of a chunk which begins with a frame.
  payload-frame : (p rest : Bytes) → take (length p) (drop length_prefix (frame p ++ rest)) ≡ p
  unfolding frame to_be_bytes
  payload-frame p rest = take-append p rest

  chunk_long : (p rest : Bytes) → length (frame p ++ rest) ≡ length_prefix + length p + length rest
  unfolding frame to_be_bytes
  chunk_long p rest = omega (arith, length-append p rest)

  -- A chunk that begins with the frame of a message, with a payload below 2^32 bytes, gives the
  -- line of that message, whatever follows. The codec is lawful.
  pub handle_server_message-frame :
      IsLawful c
      → (m : ServerMessage) (p rest : Bytes) → c.encode_to_vec m ≡ ok p
      → length p < 2 ^ 32
      → handle_server_message (frame p ++ rest) ≡ ok (render m)
  unfolding handle_server_message rendered
  handle_server_message-frame l m p rest e h = rw (
    le→ltb_false (length (frame p ++ rest)) length_prefix (omega (arith, chunk_long p rest)),
    prefix-frame p rest h,
    le→ltb_false (length (frame p ++ rest)) (length_prefix + length p)
        (omega (arith, chunk_long p rest)),
    payload-frame p rest,
    decode_message_payload l m p e,
  )

  -- A chunk with less than a prefix, or than the prefix announces, is refused.
  handle_server_message_short :
      (b : Bytes)
      → length b < length_prefix
      → handle_server_message b ≡ err (ascii "Message too short")
  unfolding handle_server_message
  handle_server_message_short b h = rw (lt→ltb (length b) length_prefix h)

  handle_server_message_incomplete :
      (b : Bytes)
      → length_prefix ≤ length b
      → length b < length_prefix + prefix_of b
      → handle_server_message b ≡ err (ascii "Incomplete message")
  unfolding handle_server_message
  handle_server_message_incomplete b h k =
      rw
        (le→ltb_false (length b) length_prefix h, lt→ltb (length b) (length_prefix + prefix_of b) k)
