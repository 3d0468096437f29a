-- ===== src/Core/MessageCache/Laws.antt =====
-- What the message cache keeps and how large it grows.
use simple_chat_ddn.Common.{
  ℕ, suc, ◌-◌, ◌≤◌, ◌<◌, max, ◌≡◌, refl, ◌≢◌, ◌⊎◌, inl, inr, Option, none, some, [], ◌∷◌, length,
  arith, ℕ_discrete,
}
use simple_chat_ddn.Common.Text.{Bytes}
use simple_chat_ddn.Common.Map.{
  Map, lookup, lookup-insert_self, lookup-insert_ne, lookup-remove_ne, lookup-remove_self,
  insert-NodupKeys, remove-NodupKeys, length-insert_le, length-remove, NodupKeys,
}
use simple_chat_ddn.Core.MessageCache.{StdHash, IsStdHash, MessageCache, new, get, put, evict}

-- One frame for a hash, and no more of them than the capacity, or one at capacity zero.
pub record IsValid (c : MessageCache) : Type 0 where
  pub distinct : NodupKeys ℕ_discrete c.cache
  bounded : length c.cache ≤ max 1 c.capacity

pub new-IsValid : (capacity : ℕ) → IsValid (new capacity)
unfolding new
new-IsValid capacity = record { distinct = tt; bounded = omega arith }

evict-length :
    (h : StdHash)
    → IsStdHash h
    → (m : Map ℕ Bytes) (n : ℕ) → length m ≤ suc n
    → length (evict (h.next_key m) m) ≤ n
unfolding evict
evict-length h l [] n b = rw l.next_key-nil (omega arith)
evict-length h l ((j, w) ∷ m) n b =
    let (k, v, e, at) = l.next_key-cons ((j, w) ∷ m) (λ e. cc) in
    rw (e, evict) (omega (arith, length-remove ℕ_discrete k v ((j, w) ∷ m) at))

evict-NodupKeys :
    (o : Option ℕ) (m : Map ℕ Bytes) → NodupKeys ℕ_discrete m → NodupKeys ℕ_discrete (evict o m)
unfolding evict
evict-NodupKeys none m u = u
evict-NodupKeys (some k) m u = remove-NodupKeys ℕ_discrete k m u

-- Eviction takes one entry at most, and changes none.
evict-keeps :
    (o : Option ℕ) (j : ℕ) (m : Map ℕ Bytes)
    → NodupKeys ℕ_discrete m
    → (lookup ℕ_discrete j (evict o m) ≡ lookup ℕ_discrete j m)
      ⊎ (lookup ℕ_discrete j (evict o m) ≡ none)
unfolding evict
evict-keeps none j m u = inl refl
evict-keeps (some k) j m u = elim (ℕ_discrete j k) [
  | yes e ↦ rw e (inr (lookup-remove_self ℕ_discrete k m u))
  | no n ↦ inl (lookup-remove_ne ℕ_discrete k j m n)
]

module _ ⦃h : StdHash⦄ where
  pub get-put_self :
      (key : ℕ) (value : Bytes) (c : MessageCache) → get key (put key value c) ≡ some value
  unfolding get put
  get-put_self key value c = lookup-insert_self ℕ_discrete key value _

  -- On a valid cache, `put` under another key either leaves what a key holds or takes it away.
  pub get-put_ne :
      (key j : ℕ) (value : Bytes) (c : MessageCache)
      → IsValid c
      → j ≢ key
      → (get j (put key value c) ≡ get j c) ⊎ (get j (put key value c) ≡ none)
  unfolding get put
  get-put_ne key j value c v n = ground (
    arith,
    lookup-insert_ne ℕ_discrete key j value c.cache,
    lookup-insert_ne ℕ_discrete key j value (evict (h.next_key c.cache) c.cache),
    evict-keeps (h.next_key c.cache) j c.cache v.distinct,
  )

  get-put_room :
      (key j : ℕ) (value : Bytes) (c : MessageCache)
      → length c.cache < c.capacity
      → j ≢ key
      → get j (put key value c) ≡ get j c
  unfolding get put
  get-put_room key j value c room n =
      ground (arith, lookup-insert_ne ℕ_discrete key j value c.cache)

  -- On a valid cache, `put` leaves one entry for a key, and no more entries than the capacity, or
  -- one at capacity zero.
  pub put-IsValid :
      IsStdHash h
      → (key : ℕ) (value : Bytes) (c : MessageCache) → IsValid c
      → IsValid (put key value c)
  unfolding put
  put-IsValid l key value c v = record {
    distinct = ground (
      arith,
      insert-NodupKeys ℕ_discrete key value c.cache v.distinct,
      insert-NodupKeys ℕ_discrete key value (evict (h.next_key c.cache) c.cache)
          (evict-NodupKeys (h.next_key c.cache) c.cache v.distinct),
    );
    bounded = ground (
      arith,
      length-insert_le ℕ_discrete key value c.cache,
      length-insert_le ℕ_discrete key value (evict (h.next_key c.cache) c.cache),
      evict-length h l c.cache (max 1 c.capacity - 1),
    );
  }
