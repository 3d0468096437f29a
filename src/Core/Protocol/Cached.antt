-- ===== src/Core/Protocol/Cached.antt =====
-- The cached encoder against the plain one.
use simple_chat_ddn.Common.{
  ℕ, ◌≡◌, ◌≢◌, ◌⊎◌, inl, inr, Result, ok, err, none, some, ℕ_discrete, Option-cases, ◌∙◌, sym,
  Result-cases,
}
use simple_chat_ddn.Common.Text.{Bytes, text_eq}
use simple_chat_ddn.Core.Error.{ApplicationError, encoding}
use simple_chat_ddn.Core.Bincode.{Codec}
use simple_chat_ddn.Core.MessageCache.{
  StdHash, IsStdHash, MessageCache, new, get, put, hash_message,
}
use simple_chat_ddn.Core.MessageCache.Laws.{IsValid, put-IsValid, get-put_self, get-put_ne}
use simple_chat_ddn.Common.Map.{lookup}
use simple_chat_ddn.Core.Protocol.{
  frame, encode_message, store, fetch_or_encode, encode_message_with_cache,
}

module _ ⦃h : StdHash⦄ where
  -- Every entry is the frame of a payload with that hash.
  abbrev pub IsCoherent : MessageCache → Type 0
  IsCoherent c =
      (k : ℕ) (f : Bytes) → get k c ≡ some f → (p : Bytes) × (h.hash_bytes p ≡ k) × (f ≡ frame p)

  pub new-IsCoherent : (capacity : ℕ) → IsCoherent (new capacity)
  unfolding new get lookup
  new-IsCoherent capacity k f e = absurd (cc)

  pub put-IsCoherent :
      (p : Bytes) (c : MessageCache)
      → IsValid c
      → IsCoherent c
      → IsCoherent (put (h.hash_bytes p) (frame p) c)
  put-IsCoherent p c v coh k f e = elim (ℕ_discrete k (h.hash_bytes p)) [
    | yes same ↦ (p, sym same, cc (get-put_self (h.hash_bytes p) (frame p) c))
    | no other ↦ elim (get-put_ne (h.hash_bytes p) k (frame p) c v other) [
      | inl kept ↦ coh k f (sym kept ∙ e)
      | inr gone ↦ absurd (cc)
    ]
  ]

module _ {T : Type 0} ⦃codec : Codec T⦄ ⦃h : StdHash⦄ where
  -- What the cached encoder does once the message has a payload.
  with_payload :
      (m : T) (p : Bytes) (c : MessageCache)
      → codec.encode_to_vec m ≡ ok p
      → encode_message_with_cache m c
        ≡ fetch_or_encode m (h.hash_bytes p) (get (h.hash_bytes p) c) c
  unfolding encode_message_with_cache hash_message
  with_payload m p c e = rw e

  pub encode_payload :
      (m : T) (p : Bytes) → codec.encode_to_vec m ≡ ok p → encode_message m ≡ ok (frame p)
  unfolding encode_message
  encode_payload m p e = rw e

  -- On a miss the frame is encoded and stored; on a hit the cache answers and is left alone.
  pub encode_miss :
      (m : T) (p : Bytes) (c : MessageCache)
      → codec.encode_to_vec m ≡ ok p
      → get (h.hash_bytes p) c ≡ none
      → encode_message_with_cache m c ≡ (ok (frame p), put (h.hash_bytes p) (frame p) c)
  unfolding fetch_or_encode store
  encode_miss m p c e miss = with_payload m p c e ∙ rw (miss, fetch_or_encode, encode_payload m p e)

  pub encode_hit :
      (m : T) (p f : Bytes) (c : MessageCache)
      → codec.encode_to_vec m ≡ ok p
      → get (h.hash_bytes p) c ≡ some f
      → encode_message_with_cache m c ≡ (ok f, c)
  unfolding fetch_or_encode
  encode_hit m p f c e hit = with_payload m p c e ∙ rw (hit, fetch_or_encode)

  pub encode_failed :
      (m : T) (c : MessageCache) {x : Bytes}
      → codec.encode_to_vec m ≡ err x
      → encode_message_with_cache m c ≡ (err (encoding x), c)
  unfolding encode_message_with_cache hash_message
  encode_failed m c e = rw e

  -- The cached encoder answers as the plain one, unless the hash of another payload collides.
  abbrev pub Agrees : T → Bytes → Result ApplicationError Bytes → Type 0
  Agrees m p r =
      (r ≡ encode_message m)
      ⊎ ((q : Bytes) × (q ≢ p) × (h.hash_bytes q ≡ h.hash_bytes p) × (r ≡ ok (frame q)))

  -- On a coherent cache, for a message with a payload, the cached encoder answers what
  -- `encode_message` answers, or the frame of another payload with the same hash.
  pub encode_message_with_cache-Agrees :
      (m : T) (p : Bytes) (c : MessageCache)
      → codec.encode_to_vec m ≡ ok p
      → IsCoherent c
      → Agrees m p (encode_message_with_cache m c).0
  encode_message_with_cache-Agrees m p c e coh = elim (Option-cases (get (h.hash_bytes p) c)) [
    | inl miss ↦ inl (rw (encode_miss m p c e miss, encode_payload m p e))
    | inr (f, hit) ↦ hit_Agrees f hit (coh (h.hash_bytes p) f hit)
  ]
    where
      hit_Agrees :
          (f : Bytes)
          → get (h.hash_bytes p) c ≡ some f
          → (q : Bytes) × (h.hash_bytes q ≡ h.hash_bytes p) × (f ≡ frame q)
          → Agrees m p (encode_message_with_cache m c).0
      hit_Agrees f hit (q, same, fq) = elim (text_eq q p) [
        | yes eq ↦ inl (rw (encode_hit m p f c e hit, encode_payload m p e, fq, eq))
        | no ne ↦ inr (q, ne, same, rw (encode_hit m p f c e hit, fq))
      ]

  -- The same of a success, whose message has a payload.
  pub encode_message_with_cache_ok :
      (m : T) (c : MessageCache) (f : Bytes)
      → IsCoherent c
      → (encode_message_with_cache m c).0 ≡ ok f
      → (p : Bytes) × (codec.encode_to_vec m ≡ ok p) × Agrees m p (ok f)
  encode_message_with_cache_ok m c f coh e = elim (Result-cases (codec.encode_to_vec m)) [
    | inr (x, failed) ↦ absurd (cc (e, encode_failed m c failed))
    | inl (p, pay) ↦ (p, pay, rw (← e) (encode_message_with_cache-Agrees m p c pay coh))
  ]

  -- The cached encoder, whether it succeeds or not, keeps the cache valid and coherent: every entry
  -- is the frame of a payload with that hash.
  pub encode_message_with_cache-keeps :
      IsStdHash h
      → (m : T) (c : MessageCache) → IsValid c
      → IsCoherent c
      → IsValid (encode_message_with_cache m c).1 × IsCoherent (encode_message_with_cache m c).1
  encode_message_with_cache-keeps l m c v coh = elim (Result-cases (codec.encode_to_vec m)) [
    | inr (x, e) ↦ rw (encode_failed m c e) (v, coh)
    | inl (p, e) ↦ elim (Option-cases (get (h.hash_bytes p) c)) [
      | inl miss ↦
          rw (encode_miss m p c e miss)
            (put-IsValid l (h.hash_bytes p) (frame p) c v, put-IsCoherent p c v coh)
      | inr (f, hit) ↦ rw (encode_hit m p f c e hit) (v, coh)
    ]
  ]

  -- Encoding a message with the cache again, right after, gives the same result and leaves the
  -- cache as it is.
  encode_message_with_cache_again :
      (m : T) (c : MessageCache)
      → let (r, c') = encode_message_with_cache m c in encode_message_with_cache m c' ≡ (r, c')
  encode_message_with_cache_again m c = elim (Result-cases (codec.encode_to_vec m)) [
    | inr (x, e) ↦ rw (encode_failed m c e) (encode_failed m c e)
    | inl (p, e) ↦ elim (Option-cases (get (h.hash_bytes p) c)) [
      | inl miss ↦
          rw (encode_miss m p c e miss)
            (encode_hit m p (frame p) _ e (get-put_self (h.hash_bytes p) (frame p) c))
      | inr (f, hit) ↦ rw (encode_hit m p f c e hit) (encode_hit m p f c e hit)
    ]
  ]
