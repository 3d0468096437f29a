-- ===== src/System/Delivery.antt =====
-- A message on its way: from the pool's channel (chat-server/src/broadcast_pool.rs), through the
-- dispatcher of a client (chat-server/src/broadcast.rs), to the line that the client prints
-- (chat-client/src/client.rs, chat-client/src/message_handler.rs).
use simple_chat_ddn.Common.{
  ◌≡◌, ◌+◌, ◌≤◌, refl, sym, ap, ◌∙◌, subst, Result, ok, err, List, [], ◌∷◌, ◌++◌, Bool-cases, inl,
  inr, length, map, All, false,
}
use mathlib.Core.List.{append_assoc}
use simple_chat_ddn.Common.Text.{Text, Bytes}
use simple_chat_ddn.Core.Error.{ApplicationError}
use simple_chat_ddn.Core.Bincode.{Codec, IsLawful}
use simple_chat_ddn.Core.Stream.{Writer, IsWriter}
use simple_chat_ddn.Core.Message.Client.{ClientMessage}
use simple_chat_ddn.Core.Message.Server.{ServerMessage, SharedServerMessage}
use simple_chat_ddn.Core.MessageCache.{StdHash, IsStdHash, MessageCache}
use simple_chat_ddn.Core.Protocol.{frame}
use simple_chat_ddn.Core.Protocol.Cached.{Agrees, encode_payload}
use simple_chat_ddn.Core.Transport.{write_message_to_stream}
use simple_chat_ddn.Server.Dispatcher.{
  Event, received, lagged, closed, cached, waiting, finished, is_own, Output, shared_codec,
  run_dispatcher, welcome,
}
use simple_chat_ddn.Server.Dispatcher.Delivery.{
  foreign, others, IsSound, AllSound, Delivered, Sent, run_dispatcher-Sent,
}
use simple_chat_ddn.Server.Runtime.{Runtime, IsRuntime}
use simple_chat_ddn.Server.Pool.{BroadcastPool, create_dispatcher}
use simple_chat_ddn.Server.Pool.Ownership.{job}
use simple_chat_ddn.Server.Pool.Registry.{Call, calls}
use simple_chat_ddn.Server.Pool.Channel.{carried, backlog, backlog-carried}
use simple_chat_ddn.Client.Commands.{ChatClient}
use simple_chat_ddn.Client.Messages.{render}
use simple_chat_ddn.Client.Run.Frames.{piece, framed, Prints, run-frame, run-nil}
use simple_chat_ddn.Client.Run.{Piece, read_size, run}

-- The messages that the dispatcher's task has received.
unfoldable pub read_by : List Event → List SharedServerMessage
read_by [] = []
read_by (received m ∷ es) = m ∷ read_by es
read_by (lagged n ∷ es) = read_by es
read_by (closed ∷ es) = read_by es
read_by (cached c ∷ es) = read_by es

-- The channel has not been closed.
abbrev pub IsOpen : List Event → Type 0
IsOpen [] = Unit {0}
IsOpen (received m ∷ es) = IsOpen es
IsOpen (lagged n ∷ es) = IsOpen es
IsOpen (closed ∷ es) = ⊥
IsOpen (cached c ∷ es) = IsOpen es

-- What the reads give together.
unfoldable pub flatten : List Piece → Bytes
flatten [] = []
flatten (f ∷ fs) = f.bytes ++ flatten fs

ok_ok : {f g : Bytes} → ◌≡◌ {A = Result ApplicationError Bytes} (ok f) (ok g) → f ≡ g
ok_ok e = cc e

foreign-others :
    (owner : Text) (es : List Event) → IsOpen es → foreign owner es ≡ others owner (read_by es)
unfolding foreign others read_by
foreign-others owner [] h = refl
foreign-others owner (received m ∷ es) h = elim (Bool-cases (is_own owner m)) [
  | inl own ↦ rw own (foreign-others owner es h)
  | inr other ↦ rw other (ap (λ x. m ∷ x) (foreign-others owner es h))
]
foreign-others owner (lagged n ∷ es) h = foreign-others owner es h
foreign-others owner (closed ∷ es) h = absurd h
foreign-others owner (cached c ∷ es) h = foreign-others owner es h

module _ ⦃codec : Codec ServerMessage⦄ where
  -- The message's frame fits in the buffer of the client's loop.
  abbrev pub IsShort : ServerMessage → Type 0
  IsShort m = (p : Bytes) → codec.encode_to_vec m ≡ ok p → 4 + length p ≤ read_size

  abbrev pub AllShort : List SharedServerMessage → Type 0
  AllShort ms = All (λ m. IsShort m.shared) ms

  module _ ⦃h : StdHash⦄ where
    -- No other bytes have the hash of the message's payload.
    abbrev pub IsAlone : SharedServerMessage → Type 0
    IsAlone m =
        (p q : Bytes)
        → codec.encode_to_vec m.shared ≡ ok p
        → h.hash_bytes q ≡ h.hash_bytes p
        → q ≡ p

    own_frame :
        (m : SharedServerMessage) (p f : Bytes)
        → codec.encode_to_vec m.shared ≡ ok p
        → IsAlone m
        → Agrees m p (ok f)
        → f ≡ frame p
    unfolding shared_codec
    own_frame m p f e alone (inl same) = ok_ok (same ∙ encode_payload m p e)
    own_frame m p f e alone (inr (q, ne, collides, same)) = absurd (ne (alone p q e collides))

  -- The task waits: what it has sent.
  waiting-Sent :
      {W : Type 0} ⦃w : Writer W⦄ ⦃h : StdHash⦄ {sent : W → Bytes} (lw : IsWriter w sent)
      (lh : IsStdHash h) (owner : Text) (ms : List SharedServerMessage) (s : W) (out : Output W)
      → out.0 ≡ waiting
      → Sent lw lh owner ms s out
      → (b : Bytes) × (sent out.1 ≡ sent s ++ b) × Delivered ms b
  waiting-Sent lw lh owner ms s (waiting, s', c) e h = h
  waiting-Sent lw lh owner ms s (finished (ok _), s', c) e h = absurd (cc e)
  waiting-Sent lw lh owner ms s (finished (err x), s', c) e h = absurd (cc e)

module _ {R W : Type 0} ⦃codec : Codec ServerMessage⦄ ⦃enc : Codec ClientMessage⦄ ⦃w : Writer W⦄
    ⦃h : StdHash⦄ (trim : Text → Text) (law : IsLawful codec) where
  -- Delivered bytes are frames that the client prints one by one.
  pub Delivered-Prints :
      (ms : List SharedServerMessage) (b : Bytes) (client : ChatClient R W)
      → Delivered ms b
      → All IsAlone ms
      → AllShort ms
      → (fs : List Piece) × (flatten fs ≡ b) × Prints trim fs (map (λ m. render m.shared) ms) client
  unfolding flatten
  Delivered-Prints [] b client d alone short = ([], sym d, run-nil trim client)
  Delivered-Prints (m ∷ ms) b client (p, f, rest, e, agrees, split, d) alone short =
      let (fs, flat, prints) = Delivered-Prints ms rest client d alone.1 short.1 in
      (
        framed p (short.0 p e) ∷ fs,
        ap (λ x. frame p ++ x) flat
            ∙ ap (λ x. x ++ rest) (sym (own_frame m p f e alone.0 agrees))
            ∙ sym split,
        run-frame trim law m.shared p fs _ client e (short.0 p e) prints,
      )

module _ {R W V : Type 0} {rt : Runtime V} ⦃codec : Codec ServerMessage⦄ ⦃enc : Codec ClientMessage⦄
    ⦃v : Writer V⦄ ⦃w : Writer W⦄ ⦃h : StdHash⦄ {sent : V → Bytes} (lv : IsWriter v sent)
    (lh : IsStdHash h) (l : IsRuntime rt) (law : IsLawful codec) (trim : Text → Text) where
  -- What is broadcast reaches the screen. A client joins a pool; whatever calls of the pool come
  -- after, once its dispatcher has received all that the channel has carried since, and has not
  -- failed, it has sent the frame of the welcome, which joining reads, and then frames, and the loop
  -- of the client prints, if it reads them one at a time, one line for each message that those calls
  -- put on the channel and that is not its own, in order, and nothing else. The codec is lawful, the
  -- cache is sound whenever the dispatcher looks at it, the channel is not closed, the first write
  -- succeeds, the frames fit in the buffer of the loop, and no other bytes have the hash of a message
  -- that is forwarded.
  pub run_dispatcher-run :
      (u : Text) (writer : V) (cache : MessageCache) (pool : BroadcastPool rt) (cs : List (Call V))
      (es : List Event) (client : ChatClient R W)
      → let joined = create_dispatcher u writer cache pool in
        let d = job u writer cache pool in
        let ms = others u (carried cs joined) in
        IsSound cache
        → AllSound es
        → IsOpen es
        → read_by es ≡ backlog l d.rec (calls cs joined).broadcaster
        → All IsAlone ms
        → AllShort ms
        → (write_message_to_stream writer (welcome u)).0 ≡ ok tt
        → (run_dispatcher d es).0 ≡ waiting
        → (p : Bytes) × (fs : List Piece) × (codec.encode_to_vec (welcome u) ≡ ok p)
          × (sent (run_dispatcher d es).1 ≡ sent writer ++ (frame p ++ flatten fs))
          × (run trim (map piece fs) client ≡ (map (λ m. render m.shared) ms, false, client))
  run_dispatcher-run u writer cache pool cs es client sound all unclosed read alone shorts e waits =
      let joined = create_dispatcher u writer cache pool in
      let (p, s, pay, first, rest) =
        run_dispatcher-Sent lv lh (job u writer cache pool) es sound all e in
      let (b, after, d) =
        waiting-Sent lv lh u _ s (run_dispatcher (job u writer cache pool) es) waits rest in
      let same =
        foreign-others u es unclosed
        ∙ ap (others u) (read ∙ backlog-carried l u writer cache pool cs) in
      let (fs, flat, prints) =
        Delivered-Prints trim law (others u (carried cs joined)) b client
          (subst (λ ms. Delivered ms b) same d) alone shorts in
      (
        p,
        fs,
        pay,
        after
            ∙ ap (λ x. x ++ b) first
            ∙ append_assoc (sent writer) (frame p) b
            ∙ ap (λ x. sent writer ++ (frame p ++ x)) (sym flat),
        prints,
      )
