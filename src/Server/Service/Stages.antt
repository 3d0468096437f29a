-- ===== src/Server/Service/Stages.antt =====
-- Which events end the server's loop.
use simple_chat_ddn.Common.{ℕ, zero, suc, ◌≡◌, refl, sym, subst, List, Bool, true, false}
use simple_chat_ddn.Common.Text.{Text}
use simple_chat_ddn.Core.Bincode.{Codec}
use simple_chat_ddn.Core.Stream.{Reader, Writer}
use simple_chat_ddn.Core.Message.Client.{ClientMessage}
use simple_chat_ddn.Core.Message.Server.{ServerMessage}
use simple_chat_ddn.Server.Runtime.{Runtime}
use simple_chat_ddn.Server.Pool.{BroadcastPool}
use simple_chat_ddn.Server.Session.{Session}
use simple_chat_ddn.Server.Service.{
  Stage, listening, acquiring, closing_down, returned, Event, shutdown_signal, accept_error,
  connection, turn, Service, acquire, resume, with_pool, turned, on_event, step,
}

module _ {R W : Type 0} where
  -- The loop has not begun to shut down.
  abbrev pub IsUp : Stage R W → Type 0
  IsUp listening = Unit {0}
  IsUp (acquiring reader writer) = Unit {0}
  IsUp closing_down = ⊥
  IsUp returned = ⊥

  abbrev pub IsNoSignal : Event R W → Type 0
  IsNoSignal shutdown_signal = ⊥
  IsNoSignal accept_error = Unit {0}
  IsNoSignal (connection reader writer) = Unit {0}
  IsNoSignal (turn n) = Unit {0}

module _ {R W : Type 0} {rt : Runtime W} where
  acquire-IsUp : (x : R) (y : W) (n : ℕ) (s : Service R rt) → IsUp (acquire x y n s).stage
  unfolding acquire
  acquire-IsUp x y zero s = tt
  acquire-IsUp x y (suc n) s = tt

  resume-IsUp : (g : Stage R W) (s : Service R rt) → s.stage ≡ g → IsUp g → IsUp (resume g s).stage
  unfolding resume
  resume-IsUp listening s e h = subst IsUp (sym e) tt
  resume-IsUp (acquiring x y) s e h = acquire-IsUp x y s.permits s
  resume-IsUp closing_down s e h = absurd h
  resume-IsUp returned s e h = absurd h

  turned-IsUp :
      (x : Bool × List (Session R W) × BroadcastPool rt) (s : Service R rt)
      → IsUp s.stage
      → IsUp (turned x s).stage
  unfolding turned with_pool
  turned-IsUp (false, ts, pool) s h = h
  turned-IsUp (true, ts, pool) s h = resume-IsUp s.stage _ refl h

  module _ ⦃r : Reader R⦄ ⦃w : Writer W⦄ ⦃cc : Codec ClientMessage⦄ ⦃cs : Codec ServerMessage⦄ where
    on_event-IsUp :
        (blocks : Text → Bool) (g : Stage R W) (e : Event R W) (s : Service R rt)
        → IsNoSignal e
        → s.stage ≡ g
        → IsUp g
        → IsUp (on_event blocks g e s).stage
    unfolding on_event
    on_event-IsUp blocks closing_down e s n same h = absurd h
    on_event-IsUp blocks returned e s n same h = absurd h
    on_event-IsUp blocks listening shutdown_signal s n same h = absurd n
    on_event-IsUp blocks listening (connection x y) s n same h = acquire-IsUp x y s.permits s
    on_event-IsUp blocks listening accept_error s n same h = rw same tt
    on_event-IsUp blocks listening (turn k) s n same h = turned-IsUp _ s (rw same tt)
    on_event-IsUp blocks (acquiring x y) shutdown_signal s n same h = absurd n
    on_event-IsUp blocks (acquiring x y) (connection _ _) s n same h = rw same tt
    on_event-IsUp blocks (acquiring x y) accept_error s n same h = rw same tt
    on_event-IsUp blocks (acquiring x y) (turn k) s n same h = turned-IsUp _ s (rw same tt)

    -- Without a signal the loop goes on.
    pub step-IsUp :
        (blocks : Text → Bool) (e : Event R W) (s : Service R rt)
        → IsNoSignal e
        → IsUp s.stage
        → IsUp (step blocks e s).stage
    unfolding step
    step-IsUp blocks e s n h = on_event-IsUp blocks s.stage e s n refl h
