-- ===== src/Server/Run.antt =====
-- `ChatServer` of chat-server/src/server.rs.
pub mod Permits
use simple_chat_ddn.Common.{
  ℕ, zero, suc, ◌+◌, ◌-◌, Result, ok, err, List, [], ◌∷◌, Bool, true, false, Option, none, some,
}
use simple_chat_ddn.Common.Text.{Text}
use simple_chat_ddn.Core.MessageCache
use simple_chat_ddn.Core.MessageCache.{MessageCache}
use simple_chat_ddn.Server.Runtime.{Runtime}
use simple_chat_ddn.Server.Pool.{BroadcastPool, shutdown}
use simple_chat_ddn.Server.Pool

pub record ChatServer {W : Type 0} (rt : Runtime W) : Type 0 where
  pub max_connections : ℕ
  pub broadcast_pool : BroadcastPool rt
  pub cache : MessageCache

abbrev pub channel_capacity : ℕ
channel_capacity = 10_000

abbrev pub cache_capacity : ℕ
cache_capacity = 100_000

-- `channel` is `broadcast::channel`, from its capacity to the sender.
unfoldable pub new :
    {W : Type 0} {rt : Runtime W} → (ℕ → rt.Sender) → rt.Executor → ℕ → ChatServer rt
unfolding Pool.new MessageCache.new
new channel executor max_connections = record {
  broadcast_pool = Pool.new (channel channel_capacity) executor;
  cache = MessageCache.new cache_capacity;
  max_connections = max_connections;
}

-- `run`: it listens, or has accepted a connection and waits for a permit, or waits in a
-- `shutdown` that does not return, or has returned.
pub data Phase : Type 0 where
  listening acquiring closing_down returned : Phase

-- A branch that `select!` takes, or `finish`: a handler that returns and drops its permit. While
-- `run` does not listen it takes no branch: what comes then is looked at when it listens again.
pub data Event : Type 0 where
  shutdown_signal connection accept_error finish : Event

-- The permits that are free, and the handlers that run.
pub record Listener {W : Type 0} (rt : Runtime W) : Type 0 where
  pub server : ChatServer rt
  pub phase : Phase
  pub permits : ℕ
  pub handlers : ℕ

module _ {W : Type 0} {rt : Runtime W} where
  -- `Semaphore::new(self.max_connections)`
  unfoldable pub listen : ChatServer rt → Listener rt
  listen server = record {
    server = server;
    phase = listening;
    permits = server.max_connections;
    handlers = 0;
  }

  -- `acquire_owned().await`, and the handler that is spawned with the permit.
  unfoldable pub acquire : ℕ → Listener rt → Listener rt
  acquire zero s = record s { phase = acquiring }
  acquire (suc free) s = record s { phase = listening; permits = free; handlers = suc s.handlers }

  -- A handler that returns frees its permit.
  unfoldable pub release : ℕ → Listener rt → Listener rt
  release zero s = s
  release (suc n) s = record s { handlers = n; permits = suc s.permits }

  -- A permit that comes free goes to the connection that waits for it.
  unfoldable pub resume : Phase → Listener rt → Listener rt
  unfolding acquire
  resume acquiring s = acquire s.permits s
  resume listening s = s
  resume closing_down s = s
  resume returned s = s

  unfoldable pub closing : Listener rt → Option (BroadcastPool rt) → Listener rt
  closing s none = record s { phase = closing_down }
  closing s (some pool) = record s {
    phase = returned;
    server = record s.server { broadcast_pool = pool };
  }

  unfoldable pub on_event : (Text → Bool) → Phase → Event → Listener rt → Listener rt
  unfolding acquire release resume closing
  on_event blocks listening shutdown_signal s = closing s (shutdown blocks s.server.broadcast_pool)
  on_event blocks listening connection s = acquire s.permits s
  on_event blocks listening accept_error s = s
  on_event blocks phase finish s = resume phase (release s.handlers s)
  on_event blocks acquiring _ s = s
  on_event blocks closing_down _ s = s
  on_event blocks returned _ s = s

  unfoldable pub step : (Text → Bool) → Event → Listener rt → Listener rt
  unfolding on_event
  step blocks e s = on_event blocks s.phase e s

  unfoldable pub run : (Text → Bool) → List Event → Listener rt → Listener rt
  unfolding step
  run blocks [] s = s
  run blocks (e ∷ es) s = run blocks es (step blocks e s)
