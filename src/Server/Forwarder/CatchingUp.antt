-- ===== src/Server/Forwarder/CatchingUp.antt =====
-- A task catches up with the channel.
use simple_chat_ddn.Common.{
  ℕ, zero, suc, ◌+◌, ◌-◌, ◌*◌, ◌≤◌, ◌<◌, ◌≡◌, refl, ap, ◌∙◌, ok, err, Option-cases, length,
  get_elem?-lt, All, All-get_elem?, dec_lt, Bool-cases, inl, inr, ◌⊎◌, arith, some,
}
use simple_chat_ddn.Common.Text.{Bytes}
use simple_chat_ddn.Core.Bincode.{Codec}
use simple_chat_ddn.Core.Stream.{Writer, IsReliable}
use simple_chat_ddn.Core.Message.Server.{ServerMessage, SharedServerMessage}
use simple_chat_ddn.Core.MessageCache.{StdHash, MessageCache, get}
use simple_chat_ddn.Core.Protocol.{frame}
use simple_chat_ddn.Core.Protocol.Cached.{encode_hit, encode_miss}
use simple_chat_ddn.Core.Transport.{write_message_to_stream_with_cache}
use simple_chat_ddn.Core.Transport.Writing.{write_frame_succeeds}
use simple_chat_ddn.Server.Dispatcher.{is_own, shared_codec}
use simple_chat_ddn.Server.Runtime.{Runtime, IsRuntime}
use simple_chat_ddn.Server.Forwarder.{
  Forwarder, receiving, go_on, got, lagged, Receiving, IsReceiving, poll_at, poll,
}
use simple_chat_ddn.Server.Forwarder.Alone.{
  polls, holding, forwarded_at_once, polls-write_message_to_stream_with_cache,
}

-- A receiver that is behind gets something.
pub record IsReady {W : Type 0} {rt : Runtime W} (l : IsRuntime rt) (rc : Receiving rt)
    : Type 0 where
  pub recv_ready :
      (x : rt.Receiver) (c : rt.Sender)
      → l.start x < length (l.sent c)
      → ((m : SharedServerMessage) × ((rc.recv x c).0 ≡ some (ok m)))
        ⊎ ((n : ℕ) × (0 < n) × ((rc.recv x c).0 ≡ some (err (lagged n))))

module _ ⦃codec : Codec ServerMessage⦄ where
  -- The message has a payload.
  abbrev pub IsEncodable : SharedServerMessage → Type 0
  IsEncodable m = (p : Bytes) × (codec.encode_to_vec m.shared ≡ ok p)

module _ {W : Type 0} {rt : Runtime W} (l : IsRuntime rt) {rc : Receiving rt}
    (lr : IsReceiving l rc) (ready : IsReady l rc) ⦃codec : Codec ServerMessage⦄ ⦃w : Writer W⦄
    ⦃h : StdHash⦄ (reliable : IsReliable w) (channel : rt.Sender) where
  polls-add :
      (m n : ℕ) (f : Forwarder rt.Receiver W) (cache : MessageCache)
      → polls rc channel (m + n) f cache
        ≡ polls rc channel n (polls rc channel m f cache).0 (polls rc channel m f cache).1
  unfolding polls
  polls-add zero n f cache =
      let sum : 0 + n ≡ n = omega arith in ap (λ k. polls rc channel k f cache) sum
  polls-add (suc m) n f cache =
      let sum : suc m + n ≡ suc (m + n) = omega arith in
      ap (λ k. polls rc channel k f cache) sum
      ∙ polls-add m n (poll rc f channel cache).0 (poll rc f channel cache).1

  -- Turns after which the task waits for the channel again, further on.
  abbrev Moves : Forwarder rt.Receiver W → MessageCache → ℕ → Type 0
  Moves f cache n =
      (n ≤ 4)
      × ((polls rc channel n f cache).0.wait ≡ receiving)
      × (l.start f.rec < l.start (polls rc channel n f cache).0.rec)
      × (l.start (polls rc channel n f cache).0.rec ≤ length (l.sent channel))

  -- The writer with the cache succeeds.
  write_succeeds :
      (s : W) (m : SharedServerMessage) (cache : MessageCache)
      → IsEncodable m
      → (write_message_to_stream_with_cache s m cache).0 ≡ ok tt
  unfolding write_message_to_stream_with_cache shared_codec
  write_succeeds s m cache (p, e) = elim (Option-cases (get (h.hash_bytes p) cache)) [
    | inl miss ↦ rw (encode_miss m p cache e miss) (write_frame_succeeds reliable (frame p) s)
    | inr (b, hit) ↦ rw (encode_hit m p b cache e hit) (write_frame_succeeds reliable b s)
  ]

  -- A turn that receives.
  poll-receiving :
      (f : Forwarder rt.Receiver W) (cache : MessageCache)
      → f.wait ≡ receiving
      → poll rc f channel cache
        ≡ (got (rc.recv f.rec channel).0 (record f { rec = (rc.recv f.rec channel).1 }), cache)
  unfolding poll poll_at
  poll-receiving f cache e = rw e refl

  module _ (f : Forwarder rt.Receiver W) (cache : MessageCache) (waits : f.wait ≡ receiving) where
    abbrev x' : rt.Receiver
    x' = (rc.recv f.rec channel).1

    -- One turn, and what it makes of what was received.
    first_turn :
        (n : ℕ) (g : Forwarder rt.Receiver W)
        → got (rc.recv f.rec channel).0 (record f { rec = x' }) ≡ g
        → polls rc channel (suc n) f cache ≡ polls rc channel n g cache
    unfolding polls
    first_turn n g e =
        ap (λ (y : Forwarder rt.Receiver W × MessageCache). polls rc channel n y.0 y.1)
          (poll-receiving f cache waits ∙ ap (λ z. (z, cache)) e)

    arrived_Moves :
        (n : ℕ) (y : Forwarder rt.Receiver W × MessageCache)
        → n ≤ 4
        → polls rc channel n f cache ≡ y
        → y.0.wait ≡ receiving
        → l.start f.rec < l.start y.0.rec
        → l.start y.0.rec ≤ length (l.sent channel)
        → (k : ℕ) × Moves f cache k
    arrived_Moves n y few e again further within = (n, rw e (few, again, further, within))

    received_Moves :
        (m : SharedServerMessage)
        → IsEncodable m
        → (rc.recv f.rec channel).0 ≡ some (ok m)
        → (n : ℕ) × Moves f cache n
    unfolding got go_on
    received_Moves m encodable e =
        let (here, next) = lr.recv_ok f.rec channel e in
        let within = get_elem?-lt (l.start f.rec) (l.sent channel) m here in
        let g : Forwarder rt.Receiver W = record f { rec = x' } in
        elim (Bool-cases (is_own f.channel_owner m)) [
          | inl own ↦
              arrived_Moves 1 (record g { wait = receiving }, cache) (omega arith)
                (first_turn 0 (record g { wait = receiving }) (rw (e, own) refl)
                  ∙ unfold polls in refl)
                refl (omega (arith, next)) (omega (arith, next, within))
          | inr other ↦
              let (n, few, arrives) =
                polls-write_message_to_stream_with_cache rc channel g m cache in
              arrived_Moves (suc n) (forwarded_at_once rc channel g m cache) (omega (arith, few))
                (first_turn n (holding rc channel g m cache) (rw (e, other) refl) ∙ arrives)
                (ap go_on (write_succeeds f.writer m cache encodable)) (omega (arith, next))
                (omega (arith, next, within))
        ]

    lagged_Moves :
        (k : ℕ)
        → 0 < k
        → (rc.recv f.rec channel).0 ≡ some (err (lagged k))
        → (n : ℕ) × Moves f cache n
    unfolding got
    lagged_Moves k some_lost e =
        let (next, within, _) = lr.recv_lagged f.rec channel e in
        let g : Forwarder rt.Receiver W = record f { rec = x'; wait = receiving } in
        arrived_Moves 1 (g, cache) (omega arith) (first_turn 0 g (rw e refl) ∙ unfold polls in refl)
          refl (omega (arith, next, some_lost)) within

  move :
      (f : Forwarder rt.Receiver W) (cache : MessageCache)
      → f.wait ≡ receiving
      → l.start f.rec < length (l.sent channel)
      → All IsEncodable (l.sent channel)
      → (n : ℕ) × Moves f cache n
  move f cache waits behind all = elim (ready.recv_ready f.rec channel behind) [
    | inl (m, e) ↦
        received_Moves f cache waits m
          (All-get_elem? IsEncodable (l.start f.rec) (l.sent channel) m
            (lr.recv_ok f.rec channel e).0 all)
          e
    | inr (k, some_lost, e) ↦ lagged_Moves f cache waits k some_lost e
  ]

  -- At the end of the channel, for now.
  abbrev pub CaughtUp : Forwarder rt.Receiver W → MessageCache → ℕ → Type 0
  CaughtUp f cache n =
      (n ≤ 4 * (length (l.sent channel) - l.start f.rec))
      × ((polls rc channel n f cache).0.wait ≡ receiving)
      × (l.start (polls rc channel n f cache).0.rec ≡ length (l.sent channel))

  catch_up :
      (k : ℕ) (f : Forwarder rt.Receiver W) (cache : MessageCache)
      → f.wait ≡ receiving
      → l.start f.rec ≤ length (l.sent channel)
      → length (l.sent channel) ≤ l.start f.rec + k
      → All IsEncodable (l.sent channel)
      → (n : ℕ) × CaughtUp f cache n
  unfolding polls
  catch_up zero f cache waits within fuel all =
      (0, (omega arith, waits, omega (arith, within, fuel)))
  catch_up (suc k) f cache waits within fuel all =
      elim (dec_lt (l.start f.rec) (length (l.sent channel))) [
        | no level ↦ (0, (omega arith, waits, omega (arith, within, level)))
        | yes behind ↦
            let (m, (few, waits', further, within')) = move f cache waits behind all in
            let (f', cache') = polls rc channel m f cache in
            let (n, (few', again, at)) =
              catch_up k f' cache' waits' within' (omega (arith, fuel, further)) all in
            (
              m + n,
              rw (polls-add m n f cache) (omega (arith, few, few', further, within'), again, at),
            )
      ]

  -- A task that waits for the channel and is left to run catches up with it: after four turns for
  -- each message that it is behind, at most, it waits at the end of what the channel has carried.
  -- The messages on the channel have payloads, writes succeed, and a receiver that is behind gets a
  -- message, or learns that it lags.
  pub polls-CaughtUp :
      (f : Forwarder rt.Receiver W) (cache : MessageCache)
      → f.wait ≡ receiving
      → l.start f.rec ≤ length (l.sent channel)
      → All IsEncodable (l.sent channel)
      → (n : ℕ) × CaughtUp f cache n
  polls-CaughtUp f cache waits within all =
      catch_up (length (l.sent channel)) f cache waits within (omega arith) all
