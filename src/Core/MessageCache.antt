-- ===== src/Core/MessageCache.antt =====
-- chat-core/src/message_cahce.rs: encoded frames by the hash of their payload. A method takes the
-- cache as it is under the lock, and returns it as it leaves it.
pub mod Laws
use simple_chat_ddn.Common.{
  ℕ, ◌<◌, ◌≡◌, ◌≢◌, ◌&&◌, Result, Option, none, some, List, [], leb, length, if◌then◌else◌,
  ℕ_discrete, ◌^◌, map_err, ◌>>=◌, ok,
}
use simple_chat_ddn.Common.Text.{Text, Bytes}
use simple_chat_ddn.Common.Map.{Map, lookup, insert, remove}
use simple_chat_ddn.Core.Bincode.{Codec}

-- Of the standard library: `DefaultHasher` on a byte vector, and the key that `keys().next()`
-- gives, which a `HashMap` chooses by an order of its own.
pub record StdHash : Type 0 where
  pub hash_bytes : Bytes → ℕ
  pub next_key : Map ℕ Bytes → Option ℕ

-- The hash is a u64. An empty map has no next key, and any other map has one, of an entry of its.
pub record IsStdHash (h : StdHash) : Type 0 where
  pub hash_u64 : (b : Bytes) → h.hash_bytes b < 2 ^ 64
  pub next_key-nil : h.next_key [] ≡ none
  pub next_key-cons :
      (m : Map ℕ Bytes)
      → m ≢ []
      → (k : ℕ) × (v : Bytes) × (h.next_key m ≡ some k) × (lookup ℕ_discrete k m ≡ some v)

pub record MessageCache : Type 0 where
  pub cache : Map ℕ Bytes
  pub capacity : ℕ

unfoldable pub new : ℕ → MessageCache
new capacity = record { cache = []; capacity = capacity }

unfoldable pub get : ℕ → MessageCache → Option Bytes
get key c = lookup ℕ_discrete key c.cache

-- `Arc::clone`: a clone is the same cache.
unfoldable pub clone : MessageCache → MessageCache
clone c = record { cache = c.cache; capacity = c.capacity }

evict : Option ℕ → Map ℕ Bytes → Map ℕ Bytes
evict none m = m
evict (some key) m = remove ℕ_discrete key m

module _ ⦃h : StdHash⦄ where
  unfoldable pub put : ℕ → Bytes → MessageCache → MessageCache
  unfolding evict
  put key value c =
      let room =
        if leb c.capacity (length c.cache) then evict (h.next_key c.cache) c.cache else c.cache in
      record c { cache = insert ℕ_discrete key value room }

  unfoldable pub hash_message : {T : Type 0} ⦃codec : Codec T⦄ → T → Result Text ℕ
  hash_message ⦃codec⦄ message = do encoded ← codec.encode_to_vec message; ok (h.hash_bytes encoded)
