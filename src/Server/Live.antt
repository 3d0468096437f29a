-- ===== src/Server/Live.antt =====
-- The server while it lives: its loop and its handlers (chat-server/src/server.rs,
-- chat-server/src/client_handler.rs) with the tasks of its dispatchers (chat-server/src/broadcast.rs),
-- over one pool, one channel and one cache, in any order.
pub mod Faithful
pub mod Polling
pub mod Rooms
pub mod Start
pub mod Returned
use simple_chat_ddn.Common.{
  ℕ, zero, suc, Option, none, some, List, [], ◌∷◌, ◌++◌, Bool, true, false, ◌||◌, if◌then◌else◌,
}
use simple_chat_ddn.Common.Text.{Text}
use simple_chat_ddn.Core.Bincode.{Codec}
use simple_chat_ddn.Core.Stream.{Reader, Writer}
use simple_chat_ddn.Core.Message.Client.{ClientMessage}
use simple_chat_ddn.Core.Message.Server.{ServerMessage}
use simple_chat_ddn.Core.MessageCache.{StdHash, MessageCache}
use simple_chat_ddn.Server.Dispatcher.{Dispatcher}
use simple_chat_ddn.Server.Runtime.{Runtime, IsRuntime}
use simple_chat_ddn.Server.Pool.{BroadcastPool}
use simple_chat_ddn.Server.Pool.Ownership.{job, spawned}
use simple_chat_ddn.Server.Pool.Registry.{Call, create, destroy, broadcast, call}
use simple_chat_ddn.Server.Forwarder.{Forwarder, Receiving, begin, poll}
use simple_chat_ddn.Server.Service
use simple_chat_ddn.Server.Service.{Service}
use simple_chat_ddn.Server.Service.Trace.{event_calls}

-- A task that the pool has spawned: what it was given, where it is, and whether the executor has
-- cancelled it. `abort` only asks for that; it happens later, while the task waits.
pub record Task {V : Type 0} (rt : Runtime V) : Type 0 where
  pub id : rt.Task
  pub given : Dispatcher rt.Receiver V
  pub forwarder : Forwarder rt.Receiver V
  pub cancelled : Bool

pub record Live (R : Type 0) {V : Type 0} (rt : Runtime V) : Type 0 where
  pub service : Service R rt
  pub tasks : List (Task rt)

-- An event of the loop or of a handler, a turn of the task with this number, or its cancellation by
-- the executor.
pub data Event (R V : Type 0) : Type 0 where
  served : Service.Event R V → Event R V
  polled : (task : ℕ) → Event R V
  cancels : (task : ℕ) → Event R V

is_none {ℓ} : {A : Type ℓ} → Option A → Bool
is_none none = true
is_none (some a) = false

module _ {V : Type 0} {rt : Runtime V} where
  -- The tasks that calls of the pool spawn: one for each `create_dispatcher`.
  unfoldable pub spawned_by : List (Call V) → BroadcastPool rt → List (Task rt)
  spawned_by [] pool = []
  spawned_by (create u writer cache ∷ cs) pool =
      let d = job u writer cache pool in
      record { id = spawned u writer cache pool; given = d; forwarder = begin d; cancelled = false }
      ∷ spawned_by cs (call (create u writer cache) pool)
  spawned_by (destroy u ∷ cs) pool = spawned_by cs (call (destroy u) pool)
  spawned_by (broadcast m ∷ cs) pool = spawned_by cs (call (broadcast m) pool)

  module _ (l : IsRuntime rt) (rc : Receiving rt) ⦃w : Writer V⦄ ⦃c : Codec ServerMessage⦄
      ⦃h : StdHash⦄ where
    -- A task that was cancelled has no more turns; one that was aborted goes on until then.
    pub poll_task : Task rt → BroadcastPool rt → MessageCache → Task rt × MessageCache
    poll_task t pool cache =
        let (forwarder, cache') = poll rc t.forwarder pool.broadcaster cache in
        if t.cancelled then (t, cache) else (record t { forwarder = forwarder }, cache')

    -- The executor cancels a task only if it was aborted.
    pub cancel_task : Task rt → BroadcastPool rt → Task rt
    unfolding is_none
    cancel_task t pool = record t {
      cancelled = t.cancelled || is_none (l.unaborted pool.executor t.id);
    }

    unfoldable pub cancel_nth : ℕ → List (Task rt) → BroadcastPool rt → List (Task rt)
    unfolding cancel_task
    cancel_nth n [] pool = []
    cancel_nth zero (t ∷ ts) pool = cancel_task t pool ∷ ts
    cancel_nth (suc n) (t ∷ ts) pool = t ∷ cancel_nth n ts pool

    unfoldable pub poll_nth :
        ℕ → List (Task rt) → BroadcastPool rt → MessageCache → List (Task rt) × MessageCache
    unfolding poll_task
    poll_nth n [] pool cache = ([], cache)
    poll_nth zero (t ∷ ts) pool cache =
        let (t', cache') = poll_task t pool cache in (t' ∷ ts, cache')
    poll_nth (suc n) (t ∷ ts) pool cache =
        let (ts', cache') = poll_nth n ts pool cache in (t ∷ ts', cache')

    module _ {R : Type 0} ⦃r : Reader R⦄ ⦃cc : Codec ClientMessage⦄ (blocks : Text → Bool) where
      unfoldable pub step : Event R V → Live R rt → Live R rt
      unfolding spawned_by poll_nth cancel_nth
      step (served e) s = record {
        service = Service.step blocks e s.service;
        tasks = s.tasks ++ spawned_by (event_calls e s.service) s.service.server.broadcast_pool;
      }
      step (polled n) s =
          let server = s.service.server in
          let (tasks, cache) = poll_nth n s.tasks server.broadcast_pool server.cache in
          record {
            service = record s.service { server = record server { cache = cache } };
            tasks = tasks;
          }
      step (cancels n) s = record s { tasks = cancel_nth n s.tasks s.service.server.broadcast_pool }

      unfoldable pub run : List (Event R V) → Live R rt → Live R rt
      unfolding step
      run [] s = s
      run (e ∷ es) s = run es (step e s)
