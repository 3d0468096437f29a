-- ===== src/Server/Pool/Ownership.antt =====
-- Which dispatchers have not been told to stop, and under which names the pool holds them.
use simple_chat_ddn.Common.{◌≡◌, ◌≢◌, refl, sym, ap, ◌∙◌, ok, Option, none, some, false, arith}
use simple_chat_ddn.Common.Text.{Text, text_eq}
use simple_chat_ddn.Common.Map.{
  lookup, remove, NodupKeys, lookup-insert_self, lookup-insert_ne, lookup-remove_self,
  lookup-remove_ne, insert-NodupKeys, remove-NodupKeys,
}
use simple_chat_ddn.Core.Message.Server.{SharedServerMessage}
use simple_chat_ddn.Core.MessageCache.{MessageCache}
use simple_chat_ddn.Core.Utils.{validate_username}
use simple_chat_ddn.Server.Dispatcher.{Dispatcher}
use simple_chat_ddn.Server.Runtime.{Runtime, IsRuntime}
use simple_chat_ddn.Server.Pool.{
  BroadcastPool, has, create_dispatcher, abort_removed, destroy_dispatcher, broadcast_message,
}

-- Every dispatcher that nobody has told to stop is the one that the pool holds under its owner's
-- name; names are held once, and are valid.
pub record IsValid {W : Type 0} {rt : Runtime W} (l : IsRuntime rt) (pool : BroadcastPool rt)
    : Type 0 where
  pub owned :
      (t : rt.Task) (j : Dispatcher rt.Receiver W)
      → l.unaborted pool.executor t ≡ some j
      → lookup text_eq j.channel_owner pool.dispatchers ≡ some t
  pub distinct : NodupKeys text_eq pool.dispatchers
  pub named :
      (u : Text) (t : rt.Task)
      → lookup text_eq u pool.dispatchers ≡ some t
      → validate_username u ≡ ok tt

module _ {W : Type 0} {rt : Runtime W} where
  pub has-none :
      (u : Text) (pool : BroadcastPool rt)
      → has u pool ≡ false
      → lookup text_eq u pool.dispatchers ≡ none
  unfolding has
  has-none u pool e = ground arith

  -- What `create_dispatcher` spawns, and the task that it becomes.
  abbrev pub job : Text → W → MessageCache → BroadcastPool rt → Dispatcher rt.Receiver W
  job u w c pool = record {
    rec = (rt.subscribe pool.broadcaster).0;
    channel_owner = u;
    writer = w;
    cache = c;
  }

  abbrev pub spawned : Text → W → MessageCache → BroadcastPool rt → rt.Task
  spawned u w c pool = (rt.spawn (job u w c pool) pool.executor).0

  module _ (l : IsRuntime rt) where
    -- No two dispatchers that nobody has told to stop serve one name.
    owner_unique :
        (pool : BroadcastPool rt) (t t' : rt.Task) (j j' : Dispatcher rt.Receiver W)
        → IsValid l pool
        → l.unaborted pool.executor t ≡ some j
        → l.unaborted pool.executor t' ≡ some j'
        → j.channel_owner ≡ j'.channel_owner
        → t ≡ t'
    owner_unique pool t t' j j' v e e' same = cc (v.owned t j e, v.owned t' j' e')

    create-owned :
        (u : Text) (w : W) (c : MessageCache) (pool : BroadcastPool rt)
        → IsValid l pool
        → has u pool ≡ false
        → (t : rt.Task) (j : Dispatcher rt.Receiver W)
        → l.unaborted (create_dispatcher u w c pool).executor t ≡ some j
        → lookup text_eq j.channel_owner (create_dispatcher u w c pool).dispatchers ≡ some t
    unfolding create_dispatcher
    create-owned u w c pool v free t j e = elim (l.task_eq t (spawned u w c pool)) [
      | yes same ↦
          let own : j.channel_owner ≡ u = cc (l.spawn_runs (job u w c pool) pool.executor) in
          rw own (lookup-insert_self text_eq u _ pool.dispatchers ∙ ap some (sym same))
      | no other ↦
          let old = v.owned t j (sym (l.spawn_keeps (job u w c pool) pool.executor t other) ∙ e) in
          let away : j.channel_owner ≢ u = λ q. absurd (cc (has-none u pool free, q, old)) in
          lookup-insert_ne text_eq u j.channel_owner _ pool.dispatchers away ∙ old
    ]

    create-named :
        (u : Text) (w : W) (c : MessageCache) (pool : BroadcastPool rt)
        → IsValid l pool
        → validate_username u ≡ ok tt
        → (u' : Text) (t : rt.Task)
        → lookup text_eq u' (create_dispatcher u w c pool).dispatchers ≡ some t
        → validate_username u' ≡ ok tt
    unfolding create_dispatcher
    create-named u w c pool v good u' t e = elim (text_eq u' u) [
      | yes same ↦ rw same good
      | no other ↦ v.named u' t (sym (lookup-insert_ne text_eq u u' _ pool.dispatchers other) ∙ e)
    ]

    -- On a valid pool, a dispatcher for a name that the pool does not hold and `validate_username`
    -- accepts leaves the pool valid.
    pub create_dispatcher-IsValid :
        (u : Text) (w : W) (c : MessageCache) (pool : BroadcastPool rt)
        → IsValid l pool
        → has u pool ≡ false
        → validate_username u ≡ ok tt
        → IsValid l (create_dispatcher u w c pool)
    unfolding create_dispatcher
    create_dispatcher-IsValid u w c pool v free good = record {
      owned = create-owned u w c pool v free;
      distinct = insert-NodupKeys text_eq u _ pool.dispatchers v.distinct;
      named = create-named u w c pool v good;
    }

    pub removed-owned :
        (u : Text) (d : rt.Task) (pool : BroadcastPool rt)
        → IsValid l pool
        → lookup text_eq u pool.dispatchers ≡ some d
        → (t : rt.Task) (j : Dispatcher rt.Receiver W)
        → l.unaborted (rt.abort d pool.executor) t ≡ some j
        → lookup text_eq j.channel_owner (remove text_eq u pool.dispatchers) ≡ some t
    removed-owned u d pool v held t j e = elim (l.task_eq t d) [
      | yes same ↦ absurd (cc (same, l.abort_marks d pool.executor))
      | no other ↦
          let old = v.owned t j (sym (l.abort_keeps d t pool.executor other) ∙ e) in
          let away : j.channel_owner ≢ u = λ q. other (cc (q, old, held)) in
          lookup-remove_ne text_eq u j.channel_owner pool.dispatchers away ∙ old
    ]

    removed-named :
        (u : Text) (pool : BroadcastPool rt)
        → IsValid l pool
        → (u' : Text) (t : rt.Task) → lookup text_eq u' (remove text_eq u pool.dispatchers) ≡ some t
        → validate_username u' ≡ ok tt
    removed-named u pool v u' t e = elim (text_eq u' u) [
      | yes same ↦ absurd (cc (same, lookup-remove_self text_eq u pool.dispatchers v.distinct))
      | no other ↦ v.named u' t (sym (lookup-remove_ne text_eq u u' pool.dispatchers other) ∙ e)
    ]

    abort_removed-IsValid :
        (u : Text) (o : Option rt.Task) (pool : BroadcastPool rt)
        → lookup text_eq u pool.dispatchers ≡ o
        → IsValid l pool
        → IsValid l (abort_removed o u pool)
    unfolding abort_removed
    abort_removed-IsValid u none pool e v = v
    abort_removed-IsValid u (some d) pool e v = record {
      owned = removed-owned u d pool v e;
      distinct = remove-NodupKeys text_eq u pool.dispatchers v.distinct;
      named = removed-named u pool v;
    }

    -- Taking a dispatcher away keeps the pool valid, whether there was one or not.
    pub destroy_dispatcher-IsValid :
        (u : Text) (pool : BroadcastPool rt)
        → IsValid l pool
        → IsValid l (destroy_dispatcher u pool)
    unfolding destroy_dispatcher
    destroy_dispatcher-IsValid u pool v =
        abort_removed-IsValid u (lookup text_eq u pool.dispatchers) pool refl v

    pub broadcast_message-IsValid :
        (m : SharedServerMessage) (pool : BroadcastPool rt)
        → IsValid l pool
        → IsValid l (broadcast_message m pool).1
    unfolding broadcast_message
    broadcast_message-IsValid m pool v = record {
      owned = v.owned;
      distinct = v.distinct;
      named = v.named;
    }
