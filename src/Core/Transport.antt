-- ===== src/Core/Transport.antt =====
-- chat-core/src/transport_layer.rs. A function that uses a half of the stream, the read buffer or
-- the cache takes it and returns it beside its result. Every caller's buffer has 4096 bytes at first
-- and never shrinks, so `buffer[..4]` is in range.
pub mod Reading
pub mod Writing
pub mod Sequences
use simple_chat_ddn.Common.{
  ℕ, ◌-◌, Result, ok, err, map_err, List, ◌++◌, length, take, drop, replicate, ltb, ◌==◌,
  if◌then◌else◌,
}
use simple_chat_ddn.Common.Text.{Text, Bytes}
use simple_chat_ddn.Core.Error.{
  ApplicationError, stream_io_error, client_read_stream_closed, incomplete_length_prefix,
  make_message_too_large,
}
use simple_chat_ddn.Core.Bincode.{Codec}
use simple_chat_ddn.Core.Stream.{Reader, Writer}
use simple_chat_ddn.Core.MessageCache.{StdHash, MessageCache}
use simple_chat_ddn.Core.Protocol.{
  length_prefix, max_message_size, prefix_of, decode_message, encode_message,
  encode_message_with_cache,
}

-- The bytes `b` written to the front of a buffer.
abbrev pub fill : Bytes → Bytes → Bytes
fill b buffer = b ++ drop (length b) buffer

-- `if buffer.len() < length { buffer.resize(length, 0) }`
abbrev pub grow : ℕ → Bytes → Bytes
grow n buffer = if ltb (length buffer) n then buffer ++ replicate (n - length buffer) 0 else buffer

module _ {T R : Type 0} ⦃codec : Codec T⦄ ⦃r : Reader R⦄ where
  -- After `read_exact`. On an error the buffer's contents are unspecified, and nothing reads them.
  on_payload : ℕ → Bytes → Result Text Bytes × R → Result ApplicationError T × R × Bytes
  on_payload n buffer (err e, reader) = (err (stream_io_error e), reader, buffer)
  on_payload n buffer (ok b, reader) =
      (decode_message (take n (fill b buffer)), reader, fill b buffer)

  read_payload : ℕ → R → Bytes → Result ApplicationError T × R × Bytes
  unfolding on_payload
  read_payload n reader buffer =
      if ltb max_message_size n
      then (err (make_message_too_large n max_message_size), reader, buffer)
      else on_payload n (grow n buffer) (r.read_exact n reader)

  -- After the first `read`, of `n` bytes.
  on_prefix : Bytes → Result Text Bytes × R → Result ApplicationError T × R × Bytes
  unfolding read_payload
  on_prefix buffer (err e, reader) = (err (stream_io_error e), reader, buffer)
  on_prefix buffer (ok b, reader) =
      let n = length b in
      let buffer' = fill b buffer in
      if n == 0
      then (err client_read_stream_closed, reader, buffer')
      else if ltb n length_prefix
      then (err incomplete_length_prefix, reader, buffer')
      else read_payload (prefix_of buffer') reader buffer'

  unfoldable pub read_message_from_stream : R → Bytes → Result ApplicationError T × R × Bytes
  unfolding on_prefix
  read_message_from_stream reader buffer = on_prefix buffer (r.read length_prefix reader)

module _ {W : Type 0} ⦃w : Writer W⦄ where
  after_write : Result Text (Unit {0}) × W → Result ApplicationError (Unit {0}) × W
  after_write (err e, writer) = (err (stream_io_error e), writer)
  after_write (ok _, writer) =
      let (flushed, writer') = w.flush writer in (map_err stream_io_error flushed, writer')

  -- `writer.write_all(&frame).await?; writer.flush().await?`
  unfoldable pub write_frame :
      Result ApplicationError Bytes → W → Result ApplicationError (Unit {0}) × W
  unfolding after_write
  write_frame (err e) writer = (err e, writer)
  write_frame (ok f) writer = after_write (w.write_all f writer)

  module _ {T : Type 0} ⦃codec : Codec T⦄ where
    unfoldable pub write_message_to_stream : W → T → Result ApplicationError (Unit {0}) × W
    unfolding write_frame
    write_message_to_stream writer message = write_frame (encode_message message) writer

    unfoldable pub write_message_to_stream_with_cache :
        ⦃h : StdHash⦄ → W → T → MessageCache → Result ApplicationError (Unit {0}) × W × MessageCache
    unfolding write_frame
    write_message_to_stream_with_cache writer message cache =
        let (f, cache') = encode_message_with_cache message cache in
        let (result, writer') = write_frame f writer in (result, writer', cache')
