-- ===== src/Server/Dispatcher/Delivery.antt =====
-- What a dispatcher has sent to its client.
use simple_chat_ddn.Common.{
  ◌≡◌, refl, sym, ap, ◌∙◌, Result, ok, err, List, [], ◌∷◌, ◌++◌, Bool-cases, inl, inr,
  if◌then◌else◌,
}
use mathlib.Core.List.{append_assoc, append-nil}
use simple_chat_ddn.Common.Text.{Text, Bytes}
use simple_chat_ddn.Core.Error.{ApplicationError}
use simple_chat_ddn.Core.Bincode.{Codec}
use simple_chat_ddn.Core.Stream.{Writer, IsWriter}
use simple_chat_ddn.Core.Message.Server.{ServerMessage, SharedServerMessage}
use simple_chat_ddn.Core.MessageCache.{StdHash, IsStdHash, MessageCache}
use simple_chat_ddn.Core.MessageCache.Laws.{IsValid}
use simple_chat_ddn.Core.Protocol.{frame}
use simple_chat_ddn.Core.Protocol.Cached.{
  IsCoherent, Agrees, encode_message_with_cache-keeps, encode_message_with_cache_ok,
}
use simple_chat_ddn.Core.Transport.{write_message_to_stream, write_message_to_stream_with_cache}
use simple_chat_ddn.Core.Transport.Writing.{
  write_message_to_stream_ok, write_message_to_stream_with_cache_ok,
}
use simple_chat_ddn.Server.Dispatcher.{
  Event, received, lagged, closed, cached, waiting, finished, is_own, shared_codec, Output,
  good_bye, forwarded, farewell, dispatch_loop, started, run_dispatcher, welcome, Dispatcher,
}

-- The messages of others, up to the end of the channel.
unfoldable pub foreign : Text → List Event → List SharedServerMessage
foreign owner [] = []
foreign owner (received m ∷ es) = if is_own owner m then foreign owner es else m ∷ foreign owner es
foreign owner (lagged n ∷ es) = foreign owner es
foreign owner (closed ∷ es) = []
foreign owner (cached c ∷ es) = foreign owner es

-- The messages that are not the owner's own.
unfoldable pub others : Text → List SharedServerMessage → List SharedServerMessage
others owner [] = []
others owner (m ∷ ms) = if is_own owner m then others owner ms else m ∷ others owner ms

module _ ⦃h : StdHash⦄ where
  abbrev pub IsSound : MessageCache → Type 0
  IsSound c = IsValid c × IsCoherent c

  -- Whatever the other dispatchers did to the cache, it is sound.
  abbrev pub AllSound : List Event → Type 0
  AllSound [] = Unit {0}
  AllSound (received m ∷ es) = AllSound es
  AllSound (lagged n ∷ es) = AllSound es
  AllSound (closed ∷ es) = AllSound es
  AllSound (cached c ∷ es) = IsSound c × AllSound es

  module _ ⦃codec : Codec ServerMessage⦄ where
    -- The bytes are a frame for each message, in order: the message's own, but for a collision.
    abbrev pub Delivered : List SharedServerMessage → Bytes → Type 0
    Delivered [] b = b ≡ []
    Delivered (m ∷ ms) b =
        (p : Bytes) × (f : Bytes) × (rest : Bytes) × (codec.encode_to_vec m.shared ≡ ok p)
        × Agrees m p (ok f)
        × (b ≡ f ++ rest)
        × Delivered ms rest

module _ {W : Type 0} ⦃codec : Codec ServerMessage⦄ ⦃w : Writer W⦄ ⦃h : StdHash⦄ {sent : W → Bytes}
    (lw : IsWriter w sent) (lh : IsStdHash h) where
  -- One message forwarded: its frame is sent, and the cache stays sound.
  forward_ok :
      (m : SharedServerMessage) (s : W) (c : MessageCache)
      → IsSound c
      → (write_message_to_stream_with_cache s m c).0 ≡ ok tt
      → (p : Bytes) × (f : Bytes) × (codec.encode_to_vec m.shared ≡ ok p)
        × Agrees m p (ok f)
        × (sent (write_message_to_stream_with_cache s m c).1 ≡ sent s ++ f)
        × IsSound (write_message_to_stream_with_cache s m c).2
  unfolding shared_codec write_message_to_stream_with_cache
  forward_ok m s c (valid, coh) e =
      let (f, encoded, out) = write_message_to_stream_with_cache_ok lw m s c e in
      let (p, pay, agrees) = encode_message_with_cache_ok m c f coh encoded in
      (p, f, pay, agrees, out, encode_message_with_cache-keeps lh m c valid coh)

  -- What has been sent since `s`, by the state of the task. Of a task that failed nothing is said.
  abbrev pub Sent : Text → List SharedServerMessage → W → Output W → Type 0
  Sent owner ms s (waiting, s', c) = (b : Bytes) × (sent s' ≡ sent s ++ b) × Delivered ms b
  Sent owner ms s (finished (ok _), s', c) =
      (b : Bytes) × (p : Bytes) × (codec.encode_to_vec (good_bye owner) ≡ ok p)
      × (sent s' ≡ sent s ++ (b ++ frame p))
      × Delivered ms b
  Sent owner ms s (finished (err e), s', c) = Unit {0}

  prepend :
      (owner : Text) (m : SharedServerMessage) (ms : List SharedServerMessage) (s s₁ : W)
      (p f : Bytes) (out : Output W)
      → codec.encode_to_vec m.shared ≡ ok p
      → Agrees m p (ok f)
      → sent s₁ ≡ sent s ++ f
      → Sent owner ms s₁ out
      → Sent owner (m ∷ ms) s out
  prepend owner m ms s s₁ p f (waiting, s', c) pay agrees e (b, e', d) =
      (f ++ b, e' ∙ ap (λ x. x ++ b) e ∙ append_assoc (sent s) f b, (p, f, b, pay, agrees, refl, d))
  prepend owner m ms s s₁ p f (finished (ok _), s', c) pay agrees e (b, q, last, e', d) = (
    f ++ b,
    q,
    last,
    e'
        ∙ ap (λ x. x ++ (b ++ frame q)) e
        ∙ append_assoc (sent s) f (b ++ frame q)
        ∙ ap (λ x. sent s ++ x) (sym (append_assoc f b (frame q))),
    (p, f, b, pay, agrees, refl, d),
  )
  prepend owner m ms s s₁ p f (finished (err x), s', c) pay agrees e d = tt

  farewell-Sent :
      (owner : Text) (s : W) (c : MessageCache) (r : Result ApplicationError (Unit {0})) (s' : W)
      → write_message_to_stream s (good_bye owner) ≡ (r, s')
      → Sent owner [] s (finished r, s', c)
  farewell-Sent owner s c (err x) s' e = tt
  farewell-Sent owner s c (ok _) s' e =
      let (p, pay, out) = write_message_to_stream_ok lw (good_bye owner) s s' e in
      ([], p, pay, out, refl)

  -- After a forwarded message, from what holds of the rest of the loop.
  forwarded-Sent :
      (owner : Text) (m : SharedServerMessage) (ms : List SharedServerMessage) (s : W)
      (c : MessageCache) (next : W → MessageCache → Output W)
      (r : Result ApplicationError (Unit {0}))
      → IsSound c
      → (write_message_to_stream_with_cache s m c).0 ≡ r
      → ((s' : W) (c' : MessageCache) → IsSound c' → Sent owner ms s' (next s' c'))
      → Sent owner (m ∷ ms) s (
          forwarded next (
            r,
            (write_message_to_stream_with_cache s m c).1,
            (write_message_to_stream_with_cache s m c).2,
          ))
  unfolding forwarded
  forwarded-Sent owner m ms s c next (err x) sound e rest = tt
  forwarded-Sent owner m ms s c next (ok _) sound e rest =
      let (p, f, pay, agrees, out, sound') = forward_ok m s c sound e in
      prepend owner m ms s (write_message_to_stream_with_cache s m c).1 p f _ pay agrees out
        (rest _ _ sound')

  -- From a sound cache, and whatever sound cache the other dispatchers leave, the loop of a
  -- dispatcher that has not failed has sent a frame for each message that is not its owner's own,
  -- in order and nothing else; when the channel is closed, it returns after the frame of the
  -- farewell. A frame is that of the message, or that of a payload whose hash collides with the
  -- message's.
  dispatch_loop-Sent :
      (owner : Text) (es : List Event) (s : W) (c : MessageCache)
      → IsSound c
      → AllSound es
      → Sent owner (foreign owner es) s (dispatch_loop owner es s c)
  unfolding dispatch_loop foreign
  dispatch_loop-Sent owner [] s c sound all = ([], sym (append-nil (sent s)), refl)
  dispatch_loop-Sent owner (received m ∷ es) s c sound all = elim (Bool-cases (is_own owner m)) [
    | inl own ↦ rw own (dispatch_loop-Sent owner es s c sound all)
    | inr other ↦ rw other (
        forwarded-Sent owner m (foreign owner es) s c (dispatch_loop owner es)
          (write_message_to_stream_with_cache s m c).0 sound refl
          (λ s' c' sound'. dispatch_loop-Sent owner es s' c' sound' all))
  ]
  dispatch_loop-Sent owner (lagged n ∷ es) s c sound all = dispatch_loop-Sent owner es s c sound all
  dispatch_loop-Sent owner (closed ∷ es) s c sound all =
      unfold farewell in farewell-Sent owner s c _ _ refl
  dispatch_loop-Sent owner (cached c' ∷ es) s c sound all =
      dispatch_loop-Sent owner es s c' all.0 all.1

  started-Sent :
      (owner : Text) (es : List Event) (c : MessageCache)
      (x : Result ApplicationError (Unit {0}) × W)
      → IsSound c
      → AllSound es
      → x.0 ≡ ok tt
      → Sent owner (foreign owner es) x.1 (started owner es c x)
  unfolding started
  started-Sent owner es c (ok _, s) sound all e = dispatch_loop-Sent owner es s c sound all
  started-Sent owner es c (err x, s) sound all e = absurd (cc (e))

  -- From a sound cache, and whatever sound cache the other dispatchers leave, a dispatcher whose
  -- first write succeeds has sent the frame of the welcome, and then, if it has not failed since,
  -- what its loop sends: a frame for each message that is not its owner's own, in order, and the
  -- farewell if it has returned. A frame is that of the message, or that of a payload whose hash
  -- collides with the message's.
  pub run_dispatcher-Sent :
      {Rx : Type 0} (d : Dispatcher Rx W) (es : List Event)
      → IsSound d.cache
      → AllSound es
      → (write_message_to_stream d.writer (welcome d.channel_owner)).0 ≡ ok tt
      → (p : Bytes) × (s : W) × (codec.encode_to_vec (welcome d.channel_owner) ≡ ok p)
        × (sent s ≡ sent d.writer ++ frame p)
        × Sent d.channel_owner (foreign d.channel_owner es) s (run_dispatcher d es)
  unfolding run_dispatcher
  run_dispatcher-Sent d es sound all e =
      let s = (write_message_to_stream d.writer (welcome d.channel_owner)).1 in
      let (p, pay, out) =
        write_message_to_stream_ok lw (welcome d.channel_owner) d.writer s (ap (λ r. (r, s)) e) in
      (p, s, pay, out, started-Sent d.channel_owner es d.cache _ sound all e)
