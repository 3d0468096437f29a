-- ===== src/Server/Forwarder/Turns.antt =====
-- The turns of a task, at each of its waits.
use simple_chat_ddn.Common.{
  ℕ, suc, ◌≤◌, ◌≡◌, refl, sym, ap, ◌∙◌, Result, ok, err, map_err, Option, none, some, List, [], ◌∷◌,
  ◌++◌, get_elem?, Bool-cases, Result-cases, inl, inr, if◌then◌else◌,
}
use simple_chat_ddn.Common.Text.{Bytes, text_eq}
use simple_chat_ddn.Core.Error.{ApplicationError, encoding}
use simple_chat_ddn.Core.Bincode.{Codec}
use simple_chat_ddn.Core.Stream.{Writer, IsWriter}
use simple_chat_ddn.Core.Message.Server.{ServerMessage, SharedServerMessage}
use simple_chat_ddn.Core.MessageCache.{StdHash, IsStdHash, MessageCache, put, hash_message}
use simple_chat_ddn.Core.MessageCache.Laws.{put-IsValid}
use simple_chat_ddn.Core.Protocol.{frame}
use simple_chat_ddn.Core.Protocol.Cached.{Agrees, encode_payload, put-IsCoherent}
use simple_chat_ddn.Core.Transport.{write_frame, write_message_to_stream}
use simple_chat_ddn.Core.Transport.Writing.{write_frame_ok, write_message_to_stream_ok}
use simple_chat_ddn.Server.Dispatcher.{Dispatcher, is_own, shared_codec, welcome, good_bye}
use simple_chat_ddn.Server.Dispatcher.Delivery.{others, IsSound}
use simple_chat_ddn.Server.Runtime.{Runtime, IsRuntime}
use simple_chat_ddn.Server.Forwarder.{
  starting, receiving, fetching, storing, writing, finished, go_on, hashed, encoded, looked_up,
}
use simple_chat_ddn.Server.Forwarder.Progress.{
  Progressed-welcome, Progressed-receive, Progressed-send,
}
use simple_chat_ddn.Server.Forwarder.Faithful.{At, Progress}

module _ {W : Type 0} {rt : Runtime W} (l : IsRuntime rt) {sent : W → Bytes}
    ⦃codec : Codec ServerMessage⦄ ⦃w : Writer W⦄ ⦃h : StdHash⦄ (lw : IsWriter w sent) where
  module _ (log : List SharedServerMessage) (d : Dispatcher rt.Receiver W) (x : rt.Receiver) where
    -- The welcome.
    pub starting-At :
        (s : W) (r : Result ApplicationError (Unit {0}) × W)
        → write_message_to_stream s (welcome d.channel_owner) ≡ r
        → At l sent log d x s starting
        → At l sent log d x r.1 (go_on r.0)
    unfolding go_on
    starting-At s (err e, s') same a = tt
    starting-At s (ok _, s') same (at, none_yet) =
        let (p, pay, out) = write_message_to_stream_ok lw (welcome d.channel_owner) s s' same in
        Progressed-welcome p pay (out ∙ ap (λ z. z ++ frame p) none_yet) at

    -- A frame.
    pub writing-At :
        (f : Bytes) (s : W) (r : Result ApplicationError (Unit {0}) × W)
        → write_frame (ok f) s ≡ r
        → At l sent log d x s (writing f)
        → At l sent log d x r.1 (go_on r.0)
    unfolding go_on
    writing-At f s (err e, s') same a = tt
    writing-At f s (ok _, s') same (m, p, pay, agrees, progress) =
        let (b, is_f, out) = write_frame_ok lw (ok f) s s' same in
        let whole : b ≡ f = cc is_f in
        Progressed-send m p f (sent s') pay agrees (out ∙ ap (λ z. sent s ++ z) whole) progress

    -- The farewell.
    pub closed-At :
        (s : W) (r : Result ApplicationError (Unit {0}) × W)
        → write_message_to_stream s (good_bye d.channel_owner) ≡ r
        → At l sent log d x s receiving
        → At l sent log d x r.1 (finished r.0)
    closed-At s (err e, s') same a = tt
    closed-At s (ok _, s') same a =
        let (q, pay, out) = write_message_to_stream_ok lw (good_bye d.channel_owner) s s' same in
        (s, q, pay, out, a)

    -- The cache, and then the encoder.
    pub fetching-At :
        (m : SharedServerMessage) (hash : ℕ) (s : W) (o : Option Bytes)
        → ((f : Bytes) → o ≡ some f → (q : Bytes) × (h.hash_bytes q ≡ hash) × (f ≡ frame q))
        → At l sent log d x s (fetching m hash)
        → At l sent log d x s (looked_up m hash o)
    unfolding looked_up encoded shared_codec
    fetching-At m hash s none coh (p, pay, same, progress) =
        rw (encode_payload m p pay) (m, p, pay, same, refl, progress)
    fetching-At m hash s (some f) coh (p, pay, same, progress) =
        let (q, hash_q, is_f) = coh f refl in
        let agrees : Agrees m p (ok f) = elim (text_eq q p) [
          | yes eq ↦ inl (ap ok (is_f ∙ ap frame eq) ∙ sym (encode_payload m p pay))
          | no ne ↦ inr (q, ne, hash_q ∙ sym same, ap ok is_f)
        ] in
        (m, p, pay, agrees, progress)

    pub storing-At :
        (hash : ℕ) (f : Bytes) (s : W)
        → At l sent log d x s (storing hash f)
        → At l sent log d x s (writing f)
    unfolding shared_codec
    storing-At hash f s (m, p, pay, same, is_f, progress) =
        (m, p, pay, inl (ap ok is_f ∙ sym (encode_payload m p pay)), progress)

  -- What is put is the frame of a payload with that hash.
  pub storing-IsSound :
      IsStdHash h
      → (log : List SharedServerMessage) (d : Dispatcher rt.Receiver W) (x : rt.Receiver) (s : W)
        (hash : ℕ) (f : Bytes) (c : MessageCache)
      → IsSound c
      → At l sent log d x s (storing hash f)
      → IsSound (put hash f c)
  storing-IsSound lh log d x s hash f c (valid, coh) (m, p, pay, same, is_f, progress) =
      (put-IsValid lh hash f c valid, rw (is_f, ← same) (put-IsCoherent p c valid coh))

  -- What was received.
  module _ (log : List SharedServerMessage) (d : Dispatcher rt.Receiver W) where
    hashed-At :
        (m : SharedServerMessage) (x : rt.Receiver) (s : W)
        → Progress l sent log d x s (m ∷ [])
        → At l sent log d x s (hashed m (map_err encoding (hash_message m)))
    unfolding hashed hash_message shared_codec
    hashed-At m x s progress = elim (Result-cases (codec.encode_to_vec m.shared)) [
      | inl (p, pay) ↦ rw pay (p, pay, refl, progress)
      | inr (e, failed) ↦ rw failed tt
    ]

    pub received-At :
        (m : SharedServerMessage) (x x' : rt.Receiver) (s : W)
        → l.start d.rec ≤ l.start x
        → get_elem? log (l.start x) ≡ some m
        → l.start x' ≡ suc (l.start x)
        → At l sent log d x s receiving
        → At l sent log d x' s (
            if is_own d.channel_owner m
            then receiving
            else hashed m (map_err encoding (hash_message m)))
    unfolding others
    received-At m x x' s after here next progress = elim (Bool-cases (is_own d.channel_owner m)) [
      | inl own ↦ rw (own, next) (Progressed-receive m [] after here (rw own refl) progress)
      | inr other ↦ rw other (
          hashed-At m x' s
            (rw next (Progressed-receive m (m ∷ []) after here (rw other refl) progress)))
    ]
