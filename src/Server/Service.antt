-- ===== src/Server/Service.antt =====
-- The server with its handlers: `run` of chat-server/src/server.rs and every `handle_client` that it
-- has spawned, over one pool. A handler takes its steps, each with one call of the pool at most, in any
-- order with the others and with the loop, and gives its permit back when it returns.
pub mod Permits
pub mod Names
pub mod Refinement
pub mod Hangup
pub mod Stages
pub mod Trace
pub mod Channel
pub mod Rooms
use simple_chat_ddn.Common.{
  ℕ, zero, suc, ◌+◌, Option, none, some, List, [], ◌∷◌, ◌++◌, Bool, true, false, ◌&&◌, not,
  if◌then◌else◌,
}
use simple_chat_ddn.Common.Text.{Text}
use simple_chat_ddn.Core.Bincode.{Codec}
use simple_chat_ddn.Core.Stream.{Reader, Writer}
use simple_chat_ddn.Core.Message.Client.{ClientMessage}
use simple_chat_ddn.Core.Message.Server.{ServerMessage}
use simple_chat_ddn.Core.MessageCache.{MessageCache}
use simple_chat_ddn.Server.Runtime.{Runtime}
use simple_chat_ddn.Server.Pool.{BroadcastPool, shutdown}
use simple_chat_ddn.Server.Session.{
  Session, joining, registering, announcing, chatting, leaving, finishing, ended, accept,
  session_step,
}
use simple_chat_ddn.Server.Run.{ChatServer}

-- What the loop does: a connection that waits for a permit is held.
pub data Stage (R W : Type 0) : Type 0 where
  listening : Stage R W
  acquiring : (reader : R) (writer : W) → Stage R W
  closing_down returned : Stage R W

-- A branch of `select!`, or a turn of the handler with this number.
pub data Event (R W : Type 0) : Type 0 where
  shutdown_signal accept_error : Event R W
  connection : (reader : R) (writer : W) → Event R W
  turn : (handler : ℕ) → Event R W

pub record Service (R : Type 0) {W : Type 0} (rt : Runtime W) : Type 0 where
  pub server : ChatServer rt
  pub stage : Stage R W
  pub permits : ℕ
  pub handlers : List (Session R W)

module _ {R W : Type 0} where
  unfoldable pub is_running : Session R W → Bool
  is_running (ended result) = false
  is_running (joining reader writer buffer) = true
  is_running (registering reader writer buffer u) = true
  is_running (announcing reader buffer u) = true
  is_running (chatting reader buffer u) = true
  is_running (leaving other u) = true
  is_running (finishing u) = true

module _ {R W : Type 0} {rt : Runtime W} where
  -- `Semaphore::new(self.max_connections)`
  unfoldable pub start : ChatServer rt → Service R rt
  start server = record {
    server = server;
    stage = listening;
    permits = server.max_connections;
    handlers = [];
  }

  -- The permit, and the handler that is spawned with it.
  acquire : R → W → ℕ → Service R rt → Service R rt
  acquire reader writer zero s = record s { stage = acquiring reader writer }
  acquire reader writer (suc free) s = record s {
    stage = listening;
    permits = free;
    handlers = s.handlers ++ accept reader writer ∷ [];
  }

  -- A permit that comes free goes to the connection that waits for it.
  resume : Stage R W → Service R rt → Service R rt
  unfolding acquire
  resume (acquiring reader writer) s = acquire reader writer s.permits s
  resume listening s = s
  resume closing_down s = s
  resume returned s = s

  with_pool : BroadcastPool rt → Service R rt → Service R rt
  with_pool pool s = record s { server = record s.server { broadcast_pool = pool } }

  closing : Service R rt → Option (BroadcastPool rt) → Service R rt
  unfolding with_pool
  closing s none = record s { stage = closing_down }
  closing s (some pool) = with_pool pool (record s { stage = returned })

  -- `drop(permit)` if the handler has returned in its turn.
  turned : Bool × List (Session R W) × BroadcastPool rt → Service R rt → Service R rt
  unfolding resume with_pool
  turned (false, handlers, pool) s = with_pool pool (record s { handlers = handlers })
  turned (true, handlers, pool) s =
      resume s.stage (with_pool pool (record s { handlers = handlers; permits = suc s.permits }))

  module _ ⦃r : Reader R⦄ ⦃w : Writer W⦄ ⦃cc : Codec ClientMessage⦄ ⦃cs : Codec ServerMessage⦄ where
    -- The turn of a handler, and whether it has returned in it.
    pub turn_nth :
        MessageCache
        → ℕ
        → List (Session R W)
        → BroadcastPool rt
        → Bool × List (Session R W) × BroadcastPool rt
    unfolding is_running
    turn_nth cache n [] pool = (false, [], pool)
    turn_nth cache zero (t ∷ ts) pool =
        let (t', pool') = session_step cache t pool in
        (is_running t && not (is_running t'), t' ∷ ts, pool')
    turn_nth cache (suc n) (t ∷ ts) pool =
        let (over, ts', pool') = turn_nth cache n ts pool in (over, t ∷ ts', pool')

    on_event : (Text → Bool) → Stage R W → Event R W → Service R rt → Service R rt
    unfolding acquire closing turned turn_nth
    on_event blocks listening shutdown_signal s =
        closing s (shutdown blocks s.server.broadcast_pool)
    on_event blocks listening (connection reader writer) s = acquire reader writer s.permits s
    on_event blocks listening accept_error s = s
    on_event blocks stage (turn n) s =
        turned (turn_nth s.server.cache n s.handlers s.server.broadcast_pool) s
    on_event blocks (acquiring reader writer) _ s = s
    on_event blocks closing_down _ s = s
    on_event blocks returned _ s = s

    unfoldable pub step : (Text → Bool) → Event R W → Service R rt → Service R rt
    unfolding on_event
    step blocks e s = on_event blocks s.stage e s

    unfoldable pub run : (Text → Bool) → List (Event R W) → Service R rt → Service R rt
    unfolding step
    run blocks [] s = s
    run blocks (e ∷ es) s = run blocks es (step blocks e s)
