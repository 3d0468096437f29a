-- ===== src/Server/Pool/Rooms.antt =====
-- The pool refines a chat room.
use simple_chat_ddn.Common.{
  ℕ, ◌≡◌, ◌≢◌, refl, sym, ap, ◌∙◌, subst, Option, none, some, List, [], ◌∷◌, length, ite, if_pos,
  if_neg, inl, inr, Result-cases, map,
}
use simple_chat_ddn.Common.Text.{Text, text_eq}
use simple_chat_ddn.Common.Map.{
  lookup, NodupKeys, lookup-insert_self, lookup-insert_ne, lookup-remove_self, lookup-remove_ne,
  insert-NodupKeys, remove-NodupKeys, remove,
}
use simple_chat_ddn.Core.Message.Server.{SharedServerMessage}
use simple_chat_ddn.Core.MessageCache.{MessageCache}
use simple_chat_ddn.Server.Dispatcher.{Dispatcher}
use simple_chat_ddn.Server.Runtime.{Runtime, IsRuntime}
use simple_chat_ddn.Server.Pool.{
  BroadcastPool, create_dispatcher, abort_removed, destroy_dispatcher, broadcast_message,
}
use simple_chat_ddn.Server.Pool.Ownership.{job, spawned}
use simple_chat_ddn.Server.Pool.Registry.{Call, create, destroy, broadcast, call, calls}
use simple_chat_ddn.Server.ChatRoom.{
  Room, Act, joins, leaves, says, Does, joined, left, said, unheard, History, start, next,
}

module _ {W : Type 0} where
  abbrev pub act_of : Call W → Act
  act_of (create u writer cache) = joins u
  act_of (destroy u) = leaves u
  act_of (broadcast m) = says m

module _ {W : Type 0} {rt : Runtime W} (l : IsRuntime rt) where
  -- Every name is held once, and its dispatcher has not been told to stop.
  pub record IsHeld (pool : BroadcastPool rt) : Type 0 where
    pub distinct : NodupKeys text_eq pool.dispatchers
    pub kept :
        (u : Text) (t : rt.Task)
        → lookup text_eq u pool.dispatchers ≡ some t
        → (j : Dispatcher rt.Receiver W) × (l.unaborted pool.executor t ≡ some j)
          × (j.channel_owner ≡ u)

  abbrev since_job : Option (Dispatcher rt.Receiver W) → Option ℕ
  since_job none = none
  since_job (some j) = some (l.start j.rec)

  abbrev since : rt.Executor → Option rt.Task → Option ℕ
  since k none = none
  since k (some t) = since_job (l.unaborted k t)

  -- The room that a pool stands for.
  abbrev pub room_of : BroadcastPool rt → Room
  room_of pool = record {
    log = l.sent pool.broadcaster;
    members = λ u. since pool.executor (lookup text_eq u pool.dispatchers);
  }

  -- Another member is not touched by what happens to one task.
  since_keeps :
      (k k' : rt.Executor) (o : Option rt.Task)
      → ((t : rt.Task) → o ≡ some t → l.unaborted k' t ≡ l.unaborted k t)
      → since k' o ≡ since k o
  since_keeps k k' none h = refl
  since_keeps k k' (some t) h = ap since_job (h t refl)

  pub empty-IsHeld : (pool : BroadcastPool rt) → pool.dispatchers ≡ [] → IsHeld pool
  unfolding lookup
  empty-IsHeld pool e = record {
    distinct = subst (NodupKeys text_eq) (sym e) tt;
    kept = λ u t f. absurd (cc (sym (ap (lookup text_eq u) e) ∙ f));
  }

  pub empty-members :
      (pool : BroadcastPool rt) (v : Text) → pool.dispatchers ≡ [] → (room_of pool).members v ≡ none
  unfolding lookup
  empty-members pool v e = ap (λ m. since pool.executor (lookup text_eq v m)) e

  module _ (u : Text) (writer : W) (cache : MessageCache) (pool : BroadcastPool rt)
      (held : IsHeld pool) where
    abbrev after : BroadcastPool rt
    after = create_dispatcher u writer cache pool

    create_keeps :
        (v : Text) (t : rt.Task)
        → lookup text_eq v pool.dispatchers ≡ some t
        → l.unaborted after.executor t ≡ l.unaborted pool.executor t
    unfolding create_dispatcher
    create_keeps v t e =
        let d = job u writer cache pool in
        let (j, runs, _) = held.kept v t e in
        l.spawn_keeps d pool.executor t
          (λ same. absurd (cc (same, runs, l.spawn_new d pool.executor)))

    create_self : (room_of after).members u ≡ some (length (l.sent pool.broadcaster))
    unfolding create_dispatcher
    create_self =
        ap (since after.executor) (lookup-insert_self text_eq u _ pool.dispatchers)
        ∙ ap since_job (l.spawn_runs (job u writer cache pool) pool.executor)
        ∙ ap some (l.subscribe_start pool.broadcaster)

    create_other : (v : Text) → v ≢ u → (room_of after).members v ≡ (room_of pool).members v
    unfolding create_dispatcher
    create_other v away =
        ap (since after.executor) (lookup-insert_ne text_eq u v _ pool.dispatchers away)
        ∙ since_keeps pool.executor after.executor (lookup text_eq v pool.dispatchers)
            (create_keeps v)

    create_runs :
        (v : Text) (t : rt.Task)
        → lookup text_eq v after.dispatchers ≡ some t
        → (j : Dispatcher rt.Receiver W) × (l.unaborted after.executor t ≡ some j)
          × (j.channel_owner ≡ v)
    unfolding create_dispatcher
    create_runs v t e = elim (text_eq v u) [
      | yes same ↦
          let new : spawned u writer cache pool ≡ t = cc (
            e,
            same,
            lookup-insert_self text_eq u (spawned u writer cache pool) pool.dispatchers,
          ) in
          (
            job u writer cache pool,
            rw (← new) (l.spawn_runs (job u writer cache pool) pool.executor),
            sym same,
          )
      | no away ↦
          let old = sym (lookup-insert_ne text_eq u v _ pool.dispatchers away) ∙ e in
          let (j, runs, owner) = held.kept v t old in (j, create_keeps v t old ∙ runs, owner)
    ]

    create-IsHeld : IsHeld after
    create-IsHeld = record {
      distinct =
          unfold create_dispatcher in insert-NodupKeys text_eq u _ pool.dispatchers held.distinct;
      kept = create_runs;
    }

    create-log : (room_of after).log ≡ (room_of pool).log
    unfolding create_dispatcher
    create-log = l.subscribe_keeps pool.broadcaster

    create_members :
        (v : Text)
        → (room_of after).members v
          ≡ ite (text_eq v u) (some (length (l.sent pool.broadcaster))) ((room_of pool).members v)
    create_members v = elim (text_eq v u) [
      | yes e ↦
          ap (λ x. (room_of after).members x) e ∙ create_self ∙ sym (if_pos (text_eq v u) e _ _)
      | no n ↦ create_other v n ∙ sym (if_neg (text_eq v u) n _ _)
    ]

    create-Does : Does (joins u) (room_of pool) (room_of after)
    create-Does = joined u create-log create_members

  module _ (u : Text) (pool : BroadcastPool rt) (held : IsHeld pool) where
    abbrev removed : rt.Task → BroadcastPool rt
    removed t = record pool {
      dispatchers = remove text_eq u pool.dispatchers;
      executor = rt.abort t pool.executor;
    }

    -- The dispatcher of another name has another owner, and so is another task.
    removed_keeps :
        (t : rt.Task)
        → lookup text_eq u pool.dispatchers ≡ some t
        → (v : Text) → v ≢ u
        → (s : rt.Task) → lookup text_eq v pool.dispatchers ≡ some s
        → l.unaborted (rt.abort t pool.executor) s ≡ l.unaborted pool.executor s
    removed_keeps t e v away s f =
        let (j, runs, owner) = held.kept u t e in
        let (i, runs', owner') = held.kept v s f in
        l.abort_keeps t s pool.executor (λ same. away (cc (same, runs, runs', owner, owner')))

    removed_runs :
        (t : rt.Task)
        → lookup text_eq u pool.dispatchers ≡ some t
        → (v : Text) (s : rt.Task) → lookup text_eq v (removed t).dispatchers ≡ some s
        → (j : Dispatcher rt.Receiver W) × (l.unaborted (removed t).executor s ≡ some j)
          × (j.channel_owner ≡ v)
    removed_runs t e v s f = elim (text_eq v u) [
      | yes same ↦
          absurd (cc (same, f, lookup-remove_self text_eq u pool.dispatchers held.distinct))
      | no away ↦
          let old = sym (lookup-remove_ne text_eq u v pool.dispatchers away) ∙ f in
          let (j, runs, owner) = held.kept v s old in
          (j, removed_keeps t e v away s old ∙ runs, owner)
    ]

    removed_members :
        (t : rt.Task)
        → lookup text_eq u pool.dispatchers ≡ some t
        → (v : Text)
        → (room_of (removed t)).members v ≡ ite (text_eq v u) none ((room_of pool).members v)
    removed_members t e v = elim (text_eq v u) [
      | yes same ↦
          ap (λ x. (room_of (removed t)).members x) same
          ∙ ap (since (removed t).executor)
              (lookup-remove_self text_eq u pool.dispatchers held.distinct)
          ∙ sym (if_pos (text_eq v u) same none _)
      | no away ↦
          ap (since (removed t).executor) (lookup-remove_ne text_eq u v pool.dispatchers away)
          ∙ since_keeps pool.executor (removed t).executor (lookup text_eq v pool.dispatchers)
              (removed_keeps t e v away)
          ∙ sym (if_neg (text_eq v u) away none _)
    ]

    stranger :
        lookup text_eq u pool.dispatchers ≡ none
        → (v : Text) → (room_of pool).members v ≡ ite (text_eq v u) none ((room_of pool).members v)
    stranger e v = elim (text_eq v u) [
      | yes same ↦
          ap (λ x. (room_of pool).members x) same
          ∙ ap (since pool.executor) e
          ∙ sym (if_pos (text_eq v u) same none _)
      | no away ↦ sym (if_neg (text_eq v u) away none _)
    ]

    abort_removed-Does :
        (o : Option rt.Task)
        → lookup text_eq u pool.dispatchers ≡ o
        → IsHeld (abort_removed o u pool)
          × Does (leaves u) (room_of pool) (room_of (abort_removed o u pool))
    unfolding abort_removed
    abort_removed-Does none e = (held, left u refl (stranger e))
    abort_removed-Does (some t) e = (
      record {
        distinct = remove-NodupKeys text_eq u pool.dispatchers held.distinct;
        kept = removed_runs t e;
      },
      left u refl (removed_members t e),
    )

  broadcast-Does :
      (m : SharedServerMessage) (pool : BroadcastPool rt)
      → Does (says m) (room_of pool) (room_of (broadcast_message m pool).1)
  unfolding broadcast_message
  broadcast-Does m pool = elim (Result-cases (rt.send m pool.broadcaster).0) [
    | inl (n, e) ↦ said m (l.send_ok m pool.broadcaster e) (λ v. refl)
    | inr (_, e) ↦ unheard m (l.send_err m pool.broadcaster e) (λ v. refl)
  ]

  call-Does :
      (c : Call W) (pool : BroadcastPool rt)
      → IsHeld pool
      → IsHeld (call c pool) × Does (act_of c) (room_of pool) (room_of (call c pool))
  unfolding call destroy_dispatcher
  call-Does (create u writer cache) pool held =
      (create-IsHeld u writer cache pool held, create-Does u writer cache pool held)
  call-Does (destroy u) pool held =
      abort_removed-Does u pool held (lookup text_eq u pool.dispatchers) refl
  call-Does (broadcast m) pool held =
      let same : IsHeld (broadcast_message m pool).1 =
        unfold broadcast_message in record { distinct = held.distinct; kept = held.kept } in
      (same, broadcast-Does m pool)

  -- A pool whose names are held once, each with a dispatcher not told to stop, stands for a chat room, and
  -- goes on to: calls of its operations are what the room promises of them, one after the other.
  pub calls-History :
      (cs : List (Call W)) (pool : BroadcastPool rt)
      → IsHeld pool
      → IsHeld (calls cs pool) × History (map act_of cs) (room_of pool) (room_of (calls cs pool))
  unfolding calls
  calls-History [] pool held = (held, start)
  calls-History (c ∷ cs) pool held =
      let (held', does) = call-Does c pool held in
      let (held'', rest) = calls-History cs (call c pool) held' in (held'', next does rest)
