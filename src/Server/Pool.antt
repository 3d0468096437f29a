-- ===== src/Server/Pool.antt =====
-- chat-server/src/broadcast_pool.rs.
pub mod Ownership
pub mod Removal
pub mod Registry
pub mod Channel
pub mod Shutdown
pub mod Rooms
use simple_chat_ddn.Common.{
  Result, ok, Option, none, some, List, [], ◌∷◌, Bool, true, false, if◌then◌else◌,
}
use simple_chat_ddn.Common.Text.{Text, text_eq}
use simple_chat_ddn.Common.Map.{Map, lookup, insert, remove}
use simple_chat_ddn.Core.Error.{ApplicationError}
use simple_chat_ddn.Core.Message.Server.{SharedServerMessage}
use simple_chat_ddn.Core.MessageCache.{MessageCache}
use simple_chat_ddn.Server.Dispatcher.{Dispatcher}
use simple_chat_ddn.Server.Runtime.{Runtime}

-- All clones share the channel and the map. `executor` is where the join handles lead.
pub record BroadcastPool {W : Type 0} (rt : Runtime W) : Type 0 where
  pub broadcaster : rt.Sender
  pub dispatchers : Map Text rt.Task
  pub executor : rt.Executor

is_some {ℓ} : {A : Type ℓ} → Option A → Bool
is_some none = false
is_some (some t) = true

-- The first loop of `shutdown`. Each removal is made while the iterator, and its entry, refer to the
-- map, where DashMap says that `remove` may deadlock; it does not say when. So what DashMap does is an
-- argument, `blocks`: the names for which the removal never returns. A name is met once, so this is
-- any choice of removals. `none` is a call that does not return.
take_entries :
    {A : Type 0}
    → (Text → Bool)
    → List (Text × A)
    → List (Text × A)
    → List A
    → Option (List (Text × A) × List A)
take_entries blocks [] m taken = some (m, taken)
take_entries blocks ((username, t) ∷ entries) m taken =
    let rest = take_entries blocks entries (remove text_eq username m) (t ∷ taken) in
    if blocks username then none else rest

module _ {W : Type 0} {rt : Runtime W} where
  unfoldable pub new : rt.Sender → rt.Executor → BroadcastPool rt
  new broadcaster executor = record {
    broadcaster = broadcaster;
    dispatchers = [];
    executor = executor;
  }

  unfoldable pub has : Text → BroadcastPool rt → Bool
  unfolding is_some
  has username pool = is_some (lookup text_eq username pool.dispatchers)

  unfoldable pub clone : BroadcastPool rt → BroadcastPool rt
  clone pool = record pool { broadcaster = pool.broadcaster; dispatchers = pool.dispatchers }

  unfoldable pub create_dispatcher : Text → W → MessageCache → BroadcastPool rt → BroadcastPool rt
  create_dispatcher username writer cache pool =
      let (receiver, broadcaster) = rt.subscribe pool.broadcaster in
      let (dispatcher, executor) =
        rt.spawn
          (record { rec = receiver; channel_owner = username; writer = writer; cache = cache })
          pool.executor in
      record {
        broadcaster = broadcaster;
        dispatchers = insert text_eq username dispatcher pool.dispatchers;
        executor = executor;
      }

  abort_removed : Option rt.Task → Text → BroadcastPool rt → BroadcastPool rt
  abort_removed none username pool = pool
  abort_removed (some dispatcher) username pool = record pool {
    dispatchers = remove text_eq username pool.dispatchers;
    executor = rt.abort dispatcher pool.executor;
  }

  unfoldable pub destroy_dispatcher : Text → BroadcastPool rt → BroadcastPool rt
  unfolding abort_removed
  destroy_dispatcher username pool =
      abort_removed (lookup text_eq username pool.dispatchers) username pool

  -- A failed send is a warning in the log.
  unfoldable pub broadcast_message :
      SharedServerMessage → BroadcastPool rt → Result ApplicationError (Unit {0}) × BroadcastPool rt
  broadcast_message message pool =
      (ok tt, record pool { broadcaster = (rt.send message pool.broadcaster).1 })

  -- The second loop of `shutdown`.
  abort_all : List rt.Task → BroadcastPool rt → BroadcastPool rt
  abort_all [] pool = pool
  abort_all (t ∷ ts) pool = abort_all ts (record pool { executor = rt.abort t pool.executor })

  shut : BroadcastPool rt → Option (Map Text rt.Task × List rt.Task) → Option (BroadcastPool rt)
  unfolding abort_all
  shut pool none = none
  shut pool (some (m, taken)) = some (abort_all taken (record pool { dispatchers = m }))

  -- `drop(self.broadcaster.clone())` drops a clone only: the channel stays open.
  unfoldable pub shutdown : (Text → Bool) → BroadcastPool rt → Option (BroadcastPool rt)
  unfolding take_entries shut
  shutdown blocks pool = shut pool (take_entries blocks pool.dispatchers pool.dispatchers [])
