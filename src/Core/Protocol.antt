-- ===== src/Core/Protocol.antt =====
-- The functions of chat-core/src/protocol.rs. A byte is a number, and a frame is a list of bytes.
pub mod Framing
pub mod Cached
use simple_chat_ddn.Common.{
  ℕ, ◌+◌, ◌*◌, ◌/◌, ◌%◌, ◌^◌, Result, ok, err, ◌>>=◌, map_err, Option, none, some, List, [], ◌∷◌,
  ◌++◌, length,
}
use simple_chat_ddn.Common.Text.{Bytes}
use simple_chat_ddn.Core.Error.{ApplicationError, encoding, decoding}
use simple_chat_ddn.Core.Bincode.{Codec}
use simple_chat_ddn.Core.MessageCache.{StdHash, MessageCache, get, put, hash_message}

-- One mebibyte.
abbrev pub max_message_size : ℕ
max_message_size = 1024 * 1024

abbrev pub max_username_length : ℕ
max_username_length = 30

abbrev pub length_prefix : ℕ
length_prefix = 4

-- `u32::to_be_bytes`
unfoldable pub to_be_bytes : ℕ → Bytes
to_be_bytes n = n / 2 ^ 24 % 256 ∷ n / 2 ^ 16 % 256 ∷ n / 2 ^ 8 % 256 ∷ n % 256 ∷ []

-- `u32::from_be_bytes`
unfoldable pub from_be_bytes : ℕ → ℕ → ℕ → ℕ → ℕ
from_be_bytes a b c d = a * 2 ^ 24 + b * 2 ^ 16 + c * 2 ^ 8 + d

-- `u32::from_be_bytes([buf[0], buf[1], buf[2], buf[3]])`. Every caller has four bytes at least.
unfoldable pub prefix_of : Bytes → ℕ
unfolding from_be_bytes
prefix_of (a ∷ b ∷ c ∷ d ∷ rest) = from_be_bytes a b c d
prefix_of _ = 0

-- `payload.len() as u32` wraps.
unfoldable pub frame : Bytes → Bytes
unfolding to_be_bytes
frame payload = to_be_bytes (length payload % 2 ^ 32) ++ payload

module _ ⦃h : StdHash⦄ where
  store :
      ℕ
      → Result ApplicationError Bytes
      → MessageCache
      → Result ApplicationError Bytes × MessageCache
  store hash (ok frame_bytes) cache = (ok frame_bytes, put hash frame_bytes cache)
  store hash (err e) cache = (err e, cache)

module _ {T : Type 0} ⦃codec : Codec T⦄ where
  unfoldable pub encode_message : T → Result ApplicationError Bytes
  encode_message message = do
    payload ← map_err encoding (codec.encode_to_vec message)
    ok (frame payload)

  unfoldable pub decode_message : Bytes → Result ApplicationError T
  decode_message buf = do (body, _) ← map_err decoding (codec.decode_from_slice buf); ok body

  module _ ⦃h : StdHash⦄ where
    -- The branch on `cache.get(hash)`.
    fetch_or_encode :
        T → ℕ → Option Bytes → MessageCache → Result ApplicationError Bytes × MessageCache
    unfolding store
    fetch_or_encode message hash (some cached) cache = (ok cached, cache)
    fetch_or_encode message hash none cache = store hash (encode_message message) cache

    with_hash :
        T → Result ApplicationError ℕ → MessageCache → Result ApplicationError Bytes × MessageCache
    with_hash message (ok hash) cache = fetch_or_encode message hash (get hash cache) cache
    with_hash message (err e) cache = (err e, cache)

    unfoldable pub encode_message_with_cache :
        T → MessageCache → Result ApplicationError Bytes × MessageCache
    unfolding with_hash fetch_or_encode
    encode_message_with_cache message cache =
        with_hash message (map_err encoding (hash_message message)) cache
