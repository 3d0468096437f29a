-- ===== src/Server/Service/Names.antt =====
-- The names in the pool while every handler runs, in any order.
use simple_chat_ddn.Common.{
  ℕ, zero, suc, ◌≡◌, refl, Bool, true, false, Option, none, some, List, [], ◌∷◌, All, All-append,
}
use simple_chat_ddn.Common.Text.{Text}
use simple_chat_ddn.Core.Bincode.{Codec}
use simple_chat_ddn.Core.Stream.{Reader, Writer}
use simple_chat_ddn.Core.Message.Client.{ClientMessage}
use simple_chat_ddn.Core.Message.Server.{ServerMessage}
use simple_chat_ddn.Core.MessageCache.{MessageCache}
use simple_chat_ddn.Server.Runtime.{Runtime}
use simple_chat_ddn.Server.Pool.{BroadcastPool, shutdown}
use simple_chat_ddn.Server.Session.{Session, accept}
use simple_chat_ddn.Server.Pool.Shutdown.{shutdown_some}
use simple_chat_ddn.Server.Service.{
  Stage, listening, acquiring, closing_down, returned, Event, shutdown_signal, accept_error,
  connection, turn, Service, acquire, resume, with_pool, closing, turned, turn_nth, on_event, step,
  run,
}
use simple_chat_ddn.Server.Session.Vetting.{
  IsNamed, emptied-IsNamed, IsVetted, session_step-IsSound,
}

module _ {R W : Type 0} {rt : Runtime W} ⦃r : Reader R⦄ ⦃w : Writer W⦄ ⦃cc : Codec ClientMessage⦄
    ⦃cs : Codec ServerMessage⦄ where
  turn_nth-IsSound :
      (cache : MessageCache) (n : ℕ) (ts : List (Session R W)) (pool : BroadcastPool rt)
      → All IsVetted ts
      → IsNamed pool
      → All IsVetted (turn_nth cache n ts pool).1 × IsNamed (turn_nth cache n ts pool).2
  unfolding turn_nth
  turn_nth-IsSound cache n [] pool h v = (tt, v)
  turn_nth-IsSound cache zero (t ∷ ts) pool h v =
      let (vetted, named) = session_step-IsSound cache t pool h.0 v in ((vetted, h.1), named)
  turn_nth-IsSound cache (suc n) (t ∷ ts) pool h v =
      let (vetted, named) = turn_nth-IsSound cache n ts pool h.1 v in ((h.0, vetted), named)

module _ {R W : Type 0} {rt : Runtime W} where
  -- The handlers of a service and its pool.
  abbrev pub IsSafe : Service R rt → Type 0
  IsSafe s = All IsVetted s.handlers × IsNamed s.server.broadcast_pool

  acquire-IsSafe : (x : R) (y : W) (n : ℕ) (s : Service R rt) → IsSafe s → IsSafe (acquire x y n s)
  unfolding acquire accept
  acquire-IsSafe x y zero s h = h
  acquire-IsSafe x y (suc n) s h = (All-append IsVetted s.handlers _ h.0 (tt, tt), h.1)

  resume-IsSafe : (g : Stage R W) (s : Service R rt) → IsSafe s → IsSafe (resume g s)
  unfolding resume
  resume-IsSafe listening s h = h
  resume-IsSafe (acquiring x y) s h = acquire-IsSafe x y s.permits s h
  resume-IsSafe closing_down s h = h
  resume-IsSafe returned s h = h

  turned-IsSafe :
      (x : Bool × List (Session R W) × BroadcastPool rt) (s : Service R rt)
      → All IsVetted x.1
      → IsNamed x.2
      → IsSafe (turned x s)
  unfolding turned with_pool
  turned-IsSafe (false, ts, pool) s h v = (h, v)
  turned-IsSafe (true, ts, pool) s h v = resume-IsSafe s.stage _ (h, v)

  closing-IsSafe :
      (blocks : Text → Bool) (o : Option (BroadcastPool rt)) (s : Service R rt)
      → shutdown blocks s.server.broadcast_pool ≡ o
      → IsSafe s
      → IsSafe (closing s o)
  unfolding closing with_pool
  closing-IsSafe blocks none s e h = h
  closing-IsSafe blocks (some pool) s e h =
      (h.0, emptied-IsNamed pool (shutdown_some blocks s.server.broadcast_pool pool e))

  module _ ⦃r : Reader R⦄ ⦃w : Writer W⦄ ⦃cc : Codec ClientMessage⦄ ⦃cs : Codec ServerMessage⦄ where
    turn-IsSafe :
        (n : ℕ) (s : Service R rt)
        → IsSafe s
        → IsSafe (turned (turn_nth s.server.cache n s.handlers s.server.broadcast_pool) s)
    turn-IsSafe n s h =
        let (vetted, named) =
          turn_nth-IsSound s.server.cache n s.handlers s.server.broadcast_pool h.0 h.1 in
        turned-IsSafe _ s vetted named

    on_event-IsSafe :
        (blocks : Text → Bool) (g : Stage R W) (e : Event R W) (s : Service R rt)
        → IsSafe s
        → IsSafe (on_event blocks g e s)
    unfolding on_event
    on_event-IsSafe blocks listening shutdown_signal s h = closing-IsSafe blocks _ s refl h
    on_event-IsSafe blocks listening (connection x y) s h = acquire-IsSafe x y s.permits s h
    on_event-IsSafe blocks listening accept_error s h = h
    on_event-IsSafe blocks g (turn n) s h = turn-IsSafe n s h
    on_event-IsSafe blocks (acquiring x y) _ s h = h
    on_event-IsSafe blocks closing_down _ s h = h
    on_event-IsSafe blocks returned _ s h = h

    -- Whatever the server's loop meets, and in whatever order its handlers take their turns, also
    -- between any two calls of the pool, the pool holds a name once, and every name that it holds
    -- passes `validate_username`. The condition is that this holds at the start, and that every
    -- name which a handler is about to register there is valid.
    pub run-IsNamed :
        (blocks : Text → Bool) (es : List (Event R W)) (s : Service R rt)
        → All IsVetted s.handlers
        → IsNamed s.server.broadcast_pool
        → IsNamed (run blocks es s).server.broadcast_pool
    unfolding run step
    run-IsNamed blocks [] s h v = v
    run-IsNamed blocks (e ∷ es) s h v =
        let (vetted, named) = on_event-IsSafe blocks s.stage e s (h, v) in
        run-IsNamed blocks es _ vetted named
