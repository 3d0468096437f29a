-- ===== src/Server/Session/Interleaving.antt =====
-- Several handlers over one pool.
use simple_chat_ddn.Common.{◌≡◌, ◌≢◌, refl, some}
use simple_chat_ddn.Common.Text.{Text, Bytes, text_eq}
use simple_chat_ddn.Common.Map.{lookup, lookup-insert_self}
use simple_chat_ddn.Core.MessageCache.{MessageCache}
use simple_chat_ddn.Server.Dispatcher.{Dispatcher}
use simple_chat_ddn.Server.Runtime.{Runtime, IsRuntime}
use simple_chat_ddn.Server.Pool.{BroadcastPool, create_dispatcher}
use simple_chat_ddn.Server.Pool.Ownership.{job, spawned}
use simple_chat_ddn.Server.Pool.Removal.{create_dispatcher_orphans}
use simple_chat_ddn.Server.Session.{register}

-- Two handlers that have both tested one free name before either registered it.
module _ {R W : Type 0} {rt : Runtime W} (l : IsRuntime rt) (cache : MessageCache) where
  -- If two handlers register one name one after the other, there are two different dispatchers for
  -- it that nobody has told to stop, and the pool holds the second of them only.
  pub register_twice :
      (x y : R) (a b : W) (u v : Bytes) (name : Text) (pool : BroadcastPool rt)
      → let p = (register {R = R} cache x a u name pool).1 in
        let q = (register {R = R} cache y b v name p).1 in
        (t t' : rt.Task) × (j j' : Dispatcher rt.Receiver W) × (l.unaborted q.executor t ≡ some j)
        × (l.unaborted q.executor t' ≡ some j')
        × (j.channel_owner ≡ name)
        × (j'.channel_owner ≡ name)
        × (t ≢ t')
        × (lookup text_eq name q.dispatchers ≡ some t')
  unfolding register create_dispatcher
  register_twice x y a b u v name pool =
      let p = (register {R = R} cache x a u name pool).1 in
      let held = lookup-insert_self text_eq name (spawned name a cache pool) pool.dispatchers in
      let runs = l.spawn_runs (job name a cache pool) pool.executor in
      let (still, _) =
        create_dispatcher_orphans l name b cache p (spawned name a cache pool)
          (job name a cache pool) held runs in
      (
        spawned name a cache pool,
        spawned name b cache p,
        job name a cache pool,
        job name b cache p,
        still,
        l.spawn_runs (job name b cache p) p.executor,
        refl,
        refl,
        λ e. absurd (cc (e, runs, l.spawn_new (job name b cache p) p.executor)),
        lookup-insert_self text_eq name (spawned name b cache p) p.dispatchers,
      )
