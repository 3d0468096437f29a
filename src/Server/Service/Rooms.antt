-- ===== src/Server/Service/Rooms.antt =====
-- The server refines a chat room.
use simple_chat_ddn.Common.{
  ◌≡◌, refl, sym, ap, subst, Option, none, some, List, [], ◌∷◌, ◌++◌, map, Bool,
}
use simple_chat_ddn.Common.Text.{Text}
use simple_chat_ddn.Core.Bincode.{Codec}
use simple_chat_ddn.Core.Stream.{Reader, Writer}
use simple_chat_ddn.Core.Message.Client.{ClientMessage}
use simple_chat_ddn.Core.Message.Server.{ServerMessage}
use simple_chat_ddn.Server.Runtime.{Runtime, IsRuntime}
use simple_chat_ddn.Server.Pool.{BroadcastPool, shutdown}
use simple_chat_ddn.Server.Pool.Shutdown.{shutdown_some, shutdown-broadcaster}
use simple_chat_ddn.Server.Pool.Rooms.{
  IsHeld, room_of, act_of, calls-History, empty-IsHeld, empty-members,
}
use simple_chat_ddn.Server.ChatRoom.{Act, closes, History, start, next, closed, History-append}
use simple_chat_ddn.Server.Service.{
  Stage, listening, acquiring, closing_down, returned, Event, shutdown_signal, accept_error,
  connection, turn, Service, closing, with_pool, on_event, step, run,
}
use simple_chat_ddn.Server.Service.Stages.{IsNoSignal}
use simple_chat_ddn.Server.Service.Trace.{event_calls, pool_of, step-pool}

module _ {W : Type 0} {rt : Runtime W} where
  closing_acts : Option (BroadcastPool rt) → List Act
  closing_acts none = []
  closing_acts (some pool) = closes ∷ []

  -- From one pool to the next.
  abbrev pub Goes : IsRuntime rt → List Act → BroadcastPool rt → BroadcastPool rt → Type 0
  Goes l actions pool pool' = IsHeld l pool' × History actions (room_of l pool) (room_of l pool')

module _ {R W : Type 0} {rt : Runtime W} ⦃r : Reader R⦄ ⦃w : Writer W⦄ ⦃cc : Codec ClientMessage⦄
    ⦃cs : Codec ServerMessage⦄ (blocks : Text → Bool) where
  signal_acts : Stage R W → BroadcastPool rt → List Act
  unfolding closing_acts
  signal_acts listening pool = closing_acts (shutdown blocks pool)
  signal_acts (acquiring x y) pool = []
  signal_acts closing_down pool = []
  signal_acts returned pool = []

  -- What an event is for the room: the calls of the pool that the turn of a handler makes, or its
  -- end, if the loop looks at the signal and the shutdown returns.
  unfoldable pub event_acts : Event R W → Service R rt → List Act
  unfolding signal_acts
  event_acts shutdown_signal s = signal_acts s.stage s.server.broadcast_pool
  event_acts accept_error s = []
  event_acts (connection x y) s = []
  event_acts (turn n) s = map act_of (event_calls (turn n) s)

  unfoldable pub acts : List (Event R W) → Service R rt → List Act
  acts [] s = []
  acts (e ∷ es) s = event_acts e s ++ acts es (step blocks e s)

  module _ (l : IsRuntime rt) where
    quiet-Goes :
        (e : Event R W) (s : Service R rt)
        → IsNoSignal e
        → IsHeld l (pool_of s)
        → Goes l (map act_of (event_calls e s)) (pool_of s) (pool_of (step blocks e s))
    quiet-Goes e s h held =
        subst (Goes l (map act_of (event_calls e s)) (pool_of s)) (sym (step-pool blocks e s h))
          (calls-History l (event_calls e s) (pool_of s) held)

    closing-Goes :
        (s : Service R rt) (o : Option (BroadcastPool rt))
        → shutdown blocks (pool_of s) ≡ o
        → IsHeld l (pool_of s)
        → Goes l (closing_acts o) (pool_of s) (pool_of (closing s o))
    unfolding closing with_pool closing_acts
    closing-Goes s none e held = (held, start)
    closing-Goes s (some p) e held =
        let none_left = shutdown_some blocks (pool_of s) p e in
        let same = ap l.sent (shutdown-broadcaster blocks (pool_of s) p e) in
        (empty-IsHeld l p none_left, next (closed same (λ v. empty-members l p v none_left)) start)

    signal-Goes :
        (g : Stage R W) (s : Service R rt)
        → IsHeld l (pool_of s)
        → Goes l
            (signal_acts g (pool_of s))
            (pool_of s)
            (pool_of (on_event blocks g shutdown_signal s))
    unfolding on_event signal_acts
    signal-Goes listening s held = closing-Goes s _ refl held
    signal-Goes (acquiring x y) s held = (held, start)
    signal-Goes closing_down s held = (held, start)
    signal-Goes returned s held = (held, start)

    pub step-Goes :
        (e : Event R W) (s : Service R rt)
        → IsHeld l (pool_of s)
        → Goes l (event_acts e s) (pool_of s) (pool_of (step blocks e s))
    unfolding event_acts event_calls
    step-Goes shutdown_signal s held = unfold step in signal-Goes s.stage s held
    step-Goes accept_error s held = quiet-Goes accept_error s tt held
    step-Goes (connection x y) s held = quiet-Goes (connection x y) s tt held
    step-Goes (turn n) s held = quiet-Goes (turn n) s tt held

    -- The server is a chat room. If the pool holds each name once, its dispatcher not told to stop,
    -- then whatever the loop meets and the handlers do is a history of the room that the pool
    -- stands for, which has a log of what was said, and who is in it since when: a registration
    -- adds its name from the end of the log on and is announced, a `Message` adds to the log or is
    -- unheard, a `Leave` and a failed read take names away, and a shutdown that returns takes away
    -- all; nothing else changes it. And again each name is held so.
    run-History :
        (es : List (Event R W)) (s : Service R rt)
        → IsHeld l s.server.broadcast_pool
        → IsHeld l (run blocks es s).server.broadcast_pool
          × History
              (acts es s)
              (room_of l s.server.broadcast_pool)
              (room_of l (run blocks es s).server.broadcast_pool)
    unfolding run acts
    run-History [] s held = (held, start)
    run-History (e ∷ es) s held =
        let (held', now) = step-Goes e s held in
        let (held'', rest) = run-History es (step blocks e s) held' in
        (held'', History-append (event_acts e s) (acts es (step blocks e s)) _ _ _ now rest)
