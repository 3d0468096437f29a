-- ===== src/Server/Live/Returned.antt =====
-- A task that has returned by itself, after a write that failed.
use simple_chat_ddn.Common.{
  ℕ, zero, suc, ◌≡◌, ◌≢◌, refl, sym, ap, ◌∙◌, ok, err, some, List, [], ◌∷◌, get_elem?, All, Bool,
  Bool-cases, true, false, inl, inr,
}
use simple_chat_ddn.Common.Text.{Text, Bytes}
use simple_chat_ddn.Core.Bincode.{Codec}
use simple_chat_ddn.Core.Error.{ApplicationError}
use simple_chat_ddn.Core.Stream.{Reader, Writer}
use simple_chat_ddn.Core.Message.Client.{ClientMessage, join}
use simple_chat_ddn.Core.Message.Server.{ServerMessage}
use simple_chat_ddn.Core.MessageCache.{StdHash, MessageCache}
use simple_chat_ddn.Core.Transport.{write_frame}
use simple_chat_ddn.Server.Runtime.{Runtime, IsRuntime}
use simple_chat_ddn.Server.Pool.{BroadcastPool, has}
use simple_chat_ddn.Server.Session.{registering, join_with}
use simple_chat_ddn.Server.Session.Joining.{join_with_registering}
use simple_chat_ddn.Server.Forwarder.Returns.{poll-finished, poll-failed}
use simple_chat_ddn.Server.Forwarder.{Receiving, writing, finished}
use simple_chat_ddn.Server.Live.{
  Task, Live, Event, served, polled, cancels, poll_task, poll_nth, cancel_task, cancel_nth, step,
  run,
}
use simple_chat_ddn.Server.Live.Polling.{nth_turn, running_turn}

-- A turn of a task, or its cancellation.
abbrev pub IsOfTask : {R V : Type 0} → Event R V → Type 0
IsOfTask (served e) = ⊥
IsOfTask (polled n) = Unit {0}
IsOfTask (cancels n) = Unit {0}

module _ {V : Type 0} {rt : Runtime V} (n : ℕ) (e : ApplicationError) where
  -- The task with this number has returned this error.
  abbrev pub HasReturned : List (Task rt) → Type 0
  HasReturned ts = (t : Task rt) × (get_elem? ts n ≡ some t) × (t.forwarder.wait ≡ finished (err e))

module _ {V : Type 0} {rt : Runtime V} (l : IsRuntime rt) (rc : Receiving rt) ⦃w : Writer V⦄
    ⦃c : Codec ServerMessage⦄ ⦃h : StdHash⦄ (e : ApplicationError) where
  poll_task-finished :
      (t : Task rt) (pool : BroadcastPool rt) (cache : MessageCache)
      → t.forwarder.wait ≡ finished (err e)
      → (poll_task l rc t pool cache).0.forwarder.wait ≡ finished (err e)
  unfolding poll_task
  poll_task-finished t pool cache f = elim (Bool-cases t.cancelled) [
    | inl over ↦ rw over f
    | inr live ↦ rw live (poll-finished rc e t.forwarder pool.broadcaster cache f)
  ]

  poll_nth-HasReturned :
      (i n : ℕ) (ts : List (Task rt)) (pool : BroadcastPool rt) (cache : MessageCache)
      → HasReturned n e ts
      → HasReturned n e (poll_nth l rc i ts pool cache).0
  unfolding poll_nth
  poll_nth-HasReturned i n [] pool cache (t, at, f) = absurd (cc at)
  poll_nth-HasReturned zero zero (s ∷ ts) pool cache (t, at, f) =
      let same : s ≡ t = cc at in
      (
        (poll_task l rc s pool cache).0,
        refl,
        poll_task-finished s pool cache (ap (λ x. x.forwarder.wait) same ∙ f),
      )
  poll_nth-HasReturned zero (suc n) (s ∷ ts) pool cache h = h
  poll_nth-HasReturned (suc i) zero (s ∷ ts) pool cache h = h
  poll_nth-HasReturned (suc i) (suc n) (s ∷ ts) pool cache h =
      poll_nth-HasReturned i n ts pool cache h

  cancel_nth-HasReturned :
      (i n : ℕ) (ts : List (Task rt)) (pool : BroadcastPool rt)
      → HasReturned n e ts
      → HasReturned n e (cancel_nth l rc i ts pool)
  unfolding cancel_nth cancel_task
  cancel_nth-HasReturned i n [] pool (t, at, f) = absurd (cc at)
  cancel_nth-HasReturned zero zero (s ∷ ts) pool (t, at, f) =
      let same : s ≡ t = cc at in
      (cancel_task l rc s pool, refl, ap (λ x. x.forwarder.wait) same ∙ f)
  cancel_nth-HasReturned zero (suc n) (s ∷ ts) pool h = h
  cancel_nth-HasReturned (suc i) zero (s ∷ ts) pool h = h
  cancel_nth-HasReturned (suc i) (suc n) (s ∷ ts) pool h = cancel_nth-HasReturned i n ts pool h

  failed_turn :
      (n : ℕ) (ts : List (Task rt)) (t : Task rt) (frame_bytes : Bytes) (pool : BroadcastPool rt)
      (cache : MessageCache)
      → get_elem? ts n ≡ some t
      → t.cancelled ≡ false
      → t.forwarder.wait ≡ writing frame_bytes
      → (write_frame (ok frame_bytes) t.forwarder.writer).0 ≡ err e
      → HasReturned n e (poll_nth l rc n ts pool cache).0
  failed_turn n ts t frame_bytes pool cache at live waits fails =
      let (there, _) = nth_turn l rc n ts t pool cache at in
      let turn = running_turn l rc t pool cache live in
      (
        (poll_task l rc t pool cache).0,
        there,
        ap (λ x. x.0.forwarder.wait) turn
            ∙ poll-failed rc e t.forwarder pool.broadcaster cache frame_bytes waits fails,
      )

  module _ {R : Type 0} ⦃r : Reader R⦄ ⦃enc : Codec ClientMessage⦄ (blocks : Text → Bool) where
    abbrev pub pool_of : Live R rt → BroadcastPool rt
    pool_of s = s.service.server.broadcast_pool

    run-HasReturned :
        (es : List (Event R V)) (s : Live R rt) (n : ℕ)
        → All IsOfTask es
        → HasReturned n e s.tasks
        → HasReturned n e (run l rc blocks es s).tasks
          × (pool_of (run l rc blocks es s) ≡ pool_of s)
    unfolding run step
    run-HasReturned [] s n a h = (h, refl)
    run-HasReturned (served x ∷ es) s n a h = absurd a.0
    run-HasReturned (polled i ∷ es) s n a h =
        run-HasReturned es (step l rc blocks (polled i) s) n a.1
          (poll_nth-HasReturned i n s.tasks (pool_of s) s.service.server.cache h)
    run-HasReturned (cancels i ∷ es) s n a h =
        run-HasReturned es (step l rc blocks (cancels i) s) n a.1
          (cancel_nth-HasReturned i n s.tasks (pool_of s) h)

    -- A dispatcher whose write fails returns with that error, and its name stays taken. If a task
    -- that has not been cancelled waits to write a frame, and the write fails, then after its turn,
    -- and after whatever turns and cancellations of tasks follow, it has returned that error; and
    -- no `Join` with a name that the pool held before leads to a registration.
    pub failed-HasReturned :
        (s : Live R rt) (n : ℕ) (t : Task rt) (frame_bytes : Bytes) (es : List (Event R V))
        (u : Text) (reader reader' : R) (writer writer' : V) (buffer buffer' : Bytes)
        → let s' = run l rc blocks (polled n ∷ es) s in
          get_elem? s.tasks n ≡ some t
          → t.cancelled ≡ false
          → t.forwarder.wait ≡ writing frame_bytes
          → (write_frame (ok frame_bytes) t.forwarder.writer).0 ≡ err e
          → All IsOfTask es
          → has u (pool_of s) ≡ true
          → HasReturned n e s'.tasks
            × (join_with (ok (join u)) reader writer buffer (pool_of s')
                ≢ registering reader' writer' buffer' u)
    unfolding run step
    failed-HasReturned s n t frame_bytes es u reader reader' writer writer' buffer buffer' at live
          waits fails a held =
        let (over, same) = run-HasReturned es (step l rc blocks (polled n) s) n a (
          failed_turn n s.tasks t frame_bytes (pool_of s) s.service.server.cache at live waits
            fails) in
        (
          over,
          λ q.
              let (_, _, free) =
                join_with_registering (ok (join u)) reader reader' writer writer' buffer buffer' _ u
                  q in
              absurd (cc (sym free ∙ ap (has u) same ∙ held)),
        )
