-- ===== src/Server/Forwarder/Alone.antt =====
-- A task that nothing comes between forwards a message as the writer with the cache does.
use simple_chat_ddn.Common.{
  ℕ, zero, suc, ◌≤◌, ◌≡◌, refl, ok, err, map_err, Option-cases, Result-cases, inl, inr, arith, none,
  some,
}
use simple_chat_ddn.Common.Text.{Text, Bytes}
use simple_chat_ddn.Core.Error.{encoding}
use simple_chat_ddn.Core.Bincode.{Codec}
use simple_chat_ddn.Core.Stream.{Writer}
use simple_chat_ddn.Core.Message.Server.{ServerMessage, SharedServerMessage}
use simple_chat_ddn.Core.MessageCache.{StdHash, MessageCache, get, hash_message}
use simple_chat_ddn.Core.Protocol.Cached.{encode_payload, encode_hit, encode_miss, encode_failed}
use simple_chat_ddn.Core.Transport.{write_message_to_stream_with_cache}
use simple_chat_ddn.Server.Dispatcher.{shared_codec}
use simple_chat_ddn.Server.Runtime.{Runtime}
use simple_chat_ddn.Server.Forwarder.{
  Forwarder, hashed, looked_up, encoded, go_on, Receiving, poll_at, poll,
}

module _ {W : Type 0} {rt : Runtime W} (rc : Receiving rt) ⦃codec : Codec ServerMessage⦄
    ⦃w : Writer W⦄ ⦃h : StdHash⦄ (channel : rt.Sender) where
  -- Turns of one task, with none of the others in between.
  unfoldable pub polls :
      ℕ → Forwarder rt.Receiver W → MessageCache → Forwarder rt.Receiver W × MessageCache
  polls zero f cache = (f, cache)
  polls (suc n) f cache = let (f', cache') = poll rc f channel cache in polls n f' cache'

  module _ (f : Forwarder rt.Receiver W) (m : SharedServerMessage) (cache : MessageCache) where
    -- The task as `rec.recv()` leaves it with the message.
    abbrev pub holding : Forwarder rt.Receiver W
    holding = record f { wait = hashed m (map_err encoding (hash_message m)) }

    -- The task after `write_message_to_stream_with_cache(..).await?`.
    abbrev pub forwarded_at_once : Forwarder rt.Receiver W × MessageCache
    forwarded_at_once =
        let (result, writer, cache') = write_message_to_stream_with_cache f.writer m cache in
        (record f { writer = writer; wait = go_on result }, cache')

    -- Turns that end where the call does.
    abbrev Arrives : ℕ → Type 0
    Arrives n = polls n holding cache ≡ forwarded_at_once

    failed_Arrives : (x : Text) → codec.encode_to_vec m.shared ≡ err x → Arrives 0
    unfolding polls write_message_to_stream_with_cache hashed go_on hash_message shared_codec
    failed_Arrives x e = rw (encode_failed m cache e, e) refl

    hit_Arrives :
        (p b : Bytes)
        → codec.encode_to_vec m.shared ≡ ok p
        → get (h.hash_bytes p) cache ≡ some b
        → Arrives 2
    unfolding polls poll poll_at looked_up hashed write_message_to_stream_with_cache hash_message
        shared_codec
    hit_Arrives p b e hit = rw (encode_hit m p b cache e hit, e, hit) refl

    miss_Arrives :
        (p : Bytes)
        → codec.encode_to_vec m.shared ≡ ok p
        → get (h.hash_bytes p) cache ≡ none
        → Arrives 3
    unfolding polls poll poll_at looked_up encoded hashed write_message_to_stream_with_cache
        hash_message shared_codec
    miss_Arrives p e miss = rw (encode_miss m p cache e miss, e, miss, encode_payload m p e) refl

    -- A task that has received a message and runs alone is, after three turns at most, where
    -- `write_message_to_stream_with_cache` leaves it at once: with the same result, the same bytes
    -- sent, and the same cache.
    pub polls-write_message_to_stream_with_cache :
        (n : ℕ) × (n ≤ 3) × (polls n holding cache ≡ forwarded_at_once)
    polls-write_message_to_stream_with_cache = elim (Result-cases (codec.encode_to_vec m.shared)) [
      | inr (x, e) ↦ (0, omega arith, failed_Arrives x e)
      | inl (p, e) ↦ elim (Option-cases (get (h.hash_bytes p) cache)) [
        | inl miss ↦ (3, omega arith, miss_Arrives p e miss)
        | inr (b, hit) ↦ (2, omega arith, hit_Arrives p b e hit)
      ]
    ]
