-- ===== src/Server/Live/Rooms.antt =====
-- A living server refines a chat room: its tasks do not change what the room is.
use simple_chat_ddn.Common.{Bool, List, [], ◌∷◌, ◌++◌}
use simple_chat_ddn.Common.Text.{Text}
use simple_chat_ddn.Core.Bincode.{Codec}
use simple_chat_ddn.Core.Stream.{Reader, Writer}
use simple_chat_ddn.Core.Message.Client.{ClientMessage}
use simple_chat_ddn.Core.Message.Server.{ServerMessage}
use simple_chat_ddn.Core.MessageCache.{StdHash}
use simple_chat_ddn.Server.Runtime.{Runtime, IsRuntime}
use simple_chat_ddn.Server.Pool.{BroadcastPool}
use simple_chat_ddn.Server.Pool.Rooms.{IsHeld, room_of}
use simple_chat_ddn.Server.ChatRoom.{Act, History, start, History-append}
use simple_chat_ddn.Server.Forwarder.{Receiving}
use simple_chat_ddn.Server.Service.Rooms.{Goes, event_acts, step-Goes}
use simple_chat_ddn.Server.Live.{Live, Event, served, polled, cancels, step, run}

module _ {R V : Type 0} {rt : Runtime V} (l : IsRuntime rt) (rc : Receiving rt) ⦃r : Reader R⦄
    ⦃w : Writer V⦄ ⦃enc : Codec ClientMessage⦄ ⦃codec : Codec ServerMessage⦄ ⦃h : StdHash⦄
    (blocks : Text → Bool) where
  abbrev pub pool_of : Live R rt → BroadcastPool rt
  pool_of s = s.service.server.broadcast_pool

  -- What an event is for the room. The turns of a task, and its cancellation, are nothing.
  acts_of : Event R V → Live R rt → List Act
  acts_of (served e) s = event_acts blocks e s.service
  acts_of (polled n) s = []
  acts_of (cancels n) s = []

  unfoldable pub acts : List (Event R V) → Live R rt → List Act
  unfolding acts_of
  acts [] s = []
  acts (e ∷ es) s = acts_of e s ++ acts es (step l rc blocks e s)

  step-acts :
      (e : Event R V) (s : Live R rt)
      → IsHeld l (pool_of s)
      → Goes l (acts_of e s) (pool_of s) (pool_of (step l rc blocks e s))
  unfolding step acts_of
  step-acts (served e) s held = step-Goes blocks l e s.service held
  step-acts (polled n) s held = (held, start)
  step-acts (cancels n) s held = (held, start)

  pub run-acts :
      (es : List (Event R V)) (s : Live R rt)
      → IsHeld l (pool_of s)
      → IsHeld l (pool_of (run l rc blocks es s))
        × History (acts es s) (room_of l (pool_of s)) (room_of l (pool_of (run l rc blocks es s)))
  unfolding run acts
  run-acts [] s held = (held, start)
  run-acts (e ∷ es) s held =
      let (held', now) = step-acts e s held in
      let (held'', rest) = run-acts es (step l rc blocks e s) held' in
      (held'', History-append (acts_of e s) (acts es (step l rc blocks e s)) _ _ _ now rest)
