-- ===== src/Server/Service/Permits.antt =====
-- Permits and handlers.
use simple_chat_ddn.Common.{
  ℕ, zero, suc, ◌+◌, ◌≡◌, refl, Bool, true, false, if◌then◌else◌, Option, none, some, List, [], ◌∷◌,
  ◌++◌, arith, subst,
}
use simple_chat_ddn.Common.Text.{Text}
use simple_chat_ddn.Core.Bincode.{Codec}
use simple_chat_ddn.Core.Stream.{Reader, Writer}
use simple_chat_ddn.Core.Message.Client.{ClientMessage}
use simple_chat_ddn.Core.Message.Server.{ServerMessage}
use simple_chat_ddn.Core.MessageCache.{MessageCache}
use simple_chat_ddn.Server.Runtime.{Runtime}
use simple_chat_ddn.Server.Pool.{BroadcastPool}
use simple_chat_ddn.Server.Session.{
  Session, joining, registering, announcing, chatting, leaving, finishing, ended, accept,
  session_step,
}
use simple_chat_ddn.Server.Run.{ChatServer}
use simple_chat_ddn.Server.Service.{
  Stage, listening, acquiring, closing_down, returned, Event, shutdown_signal, accept_error,
  connection, turn, Service, is_running, start, acquire, resume, with_pool, closing, turned,
  turn_nth, on_event, step, run,
}

module _ {R W : Type 0} where
  -- How many handlers run.
  unfoldable pub running : List (Session R W) → ℕ
  unfolding is_running
  running [] = 0
  running (t ∷ ts) = (if is_running t then 1 else 0) + running ts

  pub running-accept :
      (ts : List (Session R W)) (r : R) (w : W) → running (ts ++ accept r w ∷ []) ≡ suc (running ts)
  unfolding running is_running accept
  running-accept [] r w = refl
  running-accept (t ∷ ts) r w = ground (arith, running-accept ts r w)

  abbrev pub IsAcquiring : Stage R W → Type 0
  IsAcquiring (acquiring reader writer) = Unit {0}
  IsAcquiring listening = ⊥
  IsAcquiring closing_down = ⊥
  IsAcquiring returned = ⊥

-- Every permit is free or held by a handler that runs, and a connection waits only while none is
-- free.
pub record IsValid {R W : Type 0} {rt : Runtime W} (k : ℕ) (s : Service R rt) : Type 0 where
  pub conserved : s.permits + running s.handlers ≡ k
  pub starved : IsAcquiring s.stage → s.permits ≡ 0

module _ {R W : Type 0} {rt : Runtime W} where
  start-IsValid : (server : ChatServer rt) → IsValid server.max_connections (start {R = R} server)
  unfolding start running
  start-IsValid server = record { conserved = omega arith; starved = λ h. absurd h }

module _ {R W : Type 0} {rt : Runtime W} ⦃r : Reader R⦄ ⦃w : Writer W⦄ ⦃cc : Codec ClientMessage⦄
    ⦃cs : Codec ServerMessage⦄ where
  -- The handler that returns in its turn is the one that runs no more.
  pub turn_nth-running :
      (c : MessageCache) (n : ℕ) (ts : List (Session R W)) (pool : BroadcastPool rt)
      → (if (turn_nth c n ts pool).0 then 1 else 0) + running (turn_nth c n ts pool).1 ≡ running ts
  unfolding turn_nth running is_running
  turn_nth-running c n [] pool = refl
  turn_nth-running c zero (ended result ∷ ts) pool = unfold session_step in omega arith
  turn_nth-running c zero (joining x y b ∷ ts) pool = ground arith
  turn_nth-running c zero (registering x y b u ∷ ts) pool = ground arith
  turn_nth-running c zero (announcing x b u ∷ ts) pool = ground arith
  turn_nth-running c zero (chatting x b u ∷ ts) pool = ground arith
  turn_nth-running c zero (leaving o u ∷ ts) pool = ground arith
  turn_nth-running c zero (finishing u ∷ ts) pool = ground arith
  turn_nth-running c (suc n) (t ∷ ts) pool = omega (arith, turn_nth-running c n ts pool)

module _ {R W : Type 0} {rt : Runtime W} (k : ℕ) where
  acquire-IsValid :
      (r : R) (w : W) (n : ℕ) (s : Service R rt)
      → s.permits ≡ n
      → n + running s.handlers ≡ k
      → IsValid k (acquire r w n s)
  unfolding acquire
  acquire-IsValid r w zero s e h = record { conserved = omega (arith, e, h); starved = λ x. e }
  acquire-IsValid r w (suc n) s e h = record {
    conserved = omega (arith, h, running-accept s.handlers r w);
    starved = λ x. absurd x;
  }

  calm-IsValid :
      (s : Service R rt) → ¬ IsAcquiring s.stage → s.permits + running s.handlers ≡ k → IsValid k s
  calm-IsValid s calm h = record { conserved = h; starved = λ x. absurd (calm x) }

  -- Where a permit may have come free.
  resume-IsValid :
      (g : Stage R W) (s : Service R rt)
      → s.stage ≡ g
      → s.permits + running s.handlers ≡ k
      → IsValid k (resume g s)
  unfolding resume
  resume-IsValid listening s e h = calm-IsValid s (λ x. subst IsAcquiring e x) h
  resume-IsValid (acquiring r w) s e h = acquire-IsValid r w s.permits s refl h
  resume-IsValid closing_down s e h = calm-IsValid s (λ x. subst IsAcquiring e x) h
  resume-IsValid returned s e h = calm-IsValid s (λ x. subst IsAcquiring e x) h

  closing-IsValid :
      (o : Option (BroadcastPool rt)) (s : Service R rt) → IsValid k s → IsValid k (closing s o)
  unfolding closing with_pool
  closing-IsValid none s v = calm-IsValid _ (λ x. x) v.conserved
  closing-IsValid (some pool) s v = calm-IsValid _ (λ x. x) v.conserved

  turned-IsValid :
      (x : Bool × List (Session R W) × BroadcastPool rt) (s : Service R rt)
      → (if x.0 then 1 else 0) + running x.1 ≡ running s.handlers
      → IsValid k s
      → IsValid k (turned x s)
  unfolding turned with_pool
  turned-IsValid (false, ts, pool) s e v = record {
    conserved = omega (arith, v.conserved, e);
    starved = v.starved;
  }
  turned-IsValid (true, ts, pool) s e v =
      resume-IsValid s.stage _ refl (omega (arith, v.conserved, e))

  module _ ⦃r : Reader R⦄ ⦃w : Writer W⦄ ⦃cc : Codec ClientMessage⦄ ⦃cs : Codec ServerMessage⦄ where
    on_event-IsValid :
        (blocks : Text → Bool) (g : Stage R W) (e : Event R W) (s : Service R rt)
        → IsValid k s
        → s.stage ≡ g
        → IsValid k (on_event blocks g e s)
    unfolding on_event
    on_event-IsValid blocks listening shutdown_signal s v e = closing-IsValid _ s v
    on_event-IsValid blocks listening (connection x y) s v e =
        acquire-IsValid x y s.permits s refl v.conserved
    on_event-IsValid blocks listening accept_error s v e = v
    on_event-IsValid blocks g (turn n) s v e = turned-IsValid _ s (turn_nth-running _ n _ _) v
    on_event-IsValid blocks (acquiring x y) _ s v e = v
    on_event-IsValid blocks closing_down _ s v e = v
    on_event-IsValid blocks returned _ s v e = v

    pub run-IsValid :
        (blocks : Text → Bool) (es : List (Event R W)) (s : Service R rt)
        → IsValid k s
        → IsValid k (run blocks es s)
    unfolding run step
    run-IsValid blocks [] s v = v
    run-IsValid blocks (e ∷ es) s v =
        run-IsValid blocks es _ (on_event-IsValid blocks s.stage e s v refl)

module _ {R W : Type 0} {rt : Runtime W} ⦃r : Reader R⦄ ⦃w : Writer W⦄ ⦃cc : Codec ClientMessage⦄
    ⦃cs : Codec ServerMessage⦄ where
  -- From the start on, whatever the loop meets and whatever its handlers do, the permits that are
  -- free and the handlers that have not returned are `max_connections` together.
  pub run_conserved :
      (blocks : Text → Bool) (server : ChatServer rt) (es : List (Event R W))
      → (run blocks es (start server)).permits + running (run blocks es (start server)).handlers
        ≡ server.max_connections
  run_conserved blocks server es =
      (run-IsValid server.max_connections blocks es (start server) (start-IsValid server)).conserved

  -- From the start on, a connection waits for a permit only while `max_connections` handlers have
  -- not returned.
  run_full :
      (blocks : Text → Bool) (server : ChatServer rt) (es : List (Event R W))
      → IsAcquiring (run blocks es (start server)).stage
      → running (run blocks es (start server)).handlers ≡ server.max_connections
  run_full blocks server es h =
      let v = run-IsValid server.max_connections blocks es (start server) (start-IsValid server) in
      omega (arith, v.conserved, v.starved h)
