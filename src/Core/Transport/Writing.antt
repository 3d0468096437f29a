-- ===== src/Core/Transport/Writing.antt =====
-- What the writers put on the stream.
use simple_chat_ddn.Common.{◌≡◌, refl, sym, ap, ◌∙◌, Result, ok, err, ◌++◌}
use simple_chat_ddn.Common.Text.{Text, Bytes}
use simple_chat_ddn.Core.Error.{ApplicationError}
use simple_chat_ddn.Core.Bincode.{Codec}
use simple_chat_ddn.Core.Stream.{Writer, IsWriter, IsReliable}
use simple_chat_ddn.Core.MessageCache.{StdHash, MessageCache}
use simple_chat_ddn.Core.Protocol.{frame, encode_message, encode_message_with_cache}
use simple_chat_ddn.Core.Protocol.Framing.{encode_message_ok}
use simple_chat_ddn.Core.Transport.{
  after_write, write_frame, write_message_to_stream, write_message_to_stream_with_cache,
}

module _ {W : Type 0} ⦃w : Writer W⦄ (reliable : IsReliable w) where
  pub write_frame_succeeds : (f : Bytes) (s : W) → (write_frame (ok f) s).0 ≡ ok tt
  unfolding write_frame after_write
  write_frame_succeeds f s =
      rw (reliable.write_all_succeeds f s, reliable.flush_succeeds (w.write_all f s).1) refl

module _ {W : Type 0} ⦃w : Writer W⦄ {sent : W → Bytes} (l : IsWriter w sent) where
  after_write_ok :
      (x : Result Text (Unit {0}) × W) (s' : W)
      → after_write x ≡ (ok tt, s')
      → (x.0 ≡ ok tt) × (sent s' ≡ sent x.1)
  unfolding after_write
  after_write_ok (err e, s) s' h = absurd (cc (ap (λ x. x.0) h))
  after_write_ok (ok tt, s) s' h = (refl, ap sent (sym (ap (λ x. x.1) h)) ∙ l.flush_keeps s)

  -- A write that succeeds has appended the frame, whole and once.
  pub write_frame_ok :
      (f : Result ApplicationError Bytes) (s s' : W)
      → write_frame f s ≡ (ok tt, s')
      → (b : Bytes) × (f ≡ ok b) × (sent s' ≡ sent s ++ b)
  unfolding write_frame
  write_frame_ok (err x) s s' e = absurd (cc (ap (λ x. x.0) e))
  write_frame_ok (ok f) s s' e =
      let (done, same) = after_write_ok (w.write_all f s) s' e in
      (
        f,
        refl,
        same ∙ l.write_all_ok f s (w.write_all f s).1 (ap (λ x. (x, (w.write_all f s).1)) done),
      )

  module _ {T : Type 0} ⦃codec : Codec T⦄ where
    -- A write that succeeds has sent the frame of the message's payload, after what was sent before.
    pub write_message_to_stream_ok :
        (m : T) (s s' : W)
        → write_message_to_stream s m ≡ (ok tt, s')
        → (p : Bytes) × (codec.encode_to_vec m ≡ ok p) × (sent s' ≡ sent s ++ frame p)
    unfolding write_message_to_stream
    write_message_to_stream_ok m s s' e =
        let (f, encoded, out) = write_frame_ok (encode_message m) s s' e in
        let (p, pay, same) = encode_message_ok m f encoded in
        (p, pay, out ∙ ap (λ x. sent s ++ x) same)

    -- The same with a cache: what it answers is sent.
    pub write_message_to_stream_with_cache_ok :
        ⦃h : StdHash⦄ (m : T) (s : W) (c : MessageCache)
        → (write_message_to_stream_with_cache s m c).0 ≡ ok tt
        → (b : Bytes) × ((encode_message_with_cache m c).0 ≡ ok b)
          × (sent (write_message_to_stream_with_cache s m c).1 ≡ sent s ++ b)
    unfolding write_message_to_stream_with_cache
    write_message_to_stream_with_cache_ok m s c e =
        write_frame_ok (encode_message_with_cache m c).0 s _
          (ap (λ x. (x, (write_message_to_stream_with_cache s m c).1)) e)
