-- ===== src/Server/Pool/Removal.antt =====
-- What `destroy_dispatcher` takes away and what it leaves, and what a send adds to the channel.
use simple_chat_ddn.Common.{
  ℕ, ◌≡◌, ◌≢◌, refl, sym, ap, ◌∙◌, ok, err, Option, none, some, false, [], ◌∷◌, ◌++◌, ◌⊎◌, inl, inr,
  Result-cases,
}
use simple_chat_ddn.Common.Text.{Text, text_eq}
use simple_chat_ddn.Common.Map.{lookup, lookup-insert_self, lookup-remove_self, lookup-remove-none}
use simple_chat_ddn.Core.Message.Server.{SharedServerMessage}
use simple_chat_ddn.Core.MessageCache.{MessageCache}
use simple_chat_ddn.Server.Dispatcher.{Dispatcher}
use simple_chat_ddn.Server.Runtime.{Runtime, IsRuntime}
use simple_chat_ddn.Server.Pool.{
  BroadcastPool, is_some, has, create_dispatcher, abort_removed, destroy_dispatcher,
  broadcast_message,
}
use simple_chat_ddn.Server.Pool.Ownership.{IsValid, has-none, removed-owned, job, spawned}

module _ {W : Type 0} {rt : Runtime W} (l : IsRuntime rt) where
  -- The pool does not hold the name, and every dispatcher for it has been told to stop.
  abbrev pub Gone : Text → BroadcastPool rt → Type 0
  Gone u pool =
      (has u pool ≡ false)
      × ((t : rt.Task) (j : Dispatcher rt.Receiver W)
          → l.unaborted pool.executor t ≡ some j
          → j.channel_owner ≢ u)

  abort_removed_aborts :
      (u : Text) (o : Option rt.Task) (pool : BroadcastPool rt)
      → lookup text_eq u pool.dispatchers ≡ o
      → IsValid l pool
      → (lookup text_eq u (abort_removed o u pool).dispatchers ≡ none)
        × ((t : rt.Task) (j : Dispatcher rt.Receiver W)
            → l.unaborted (abort_removed o u pool).executor t ≡ some j
            → j.channel_owner ≢ u)
  unfolding abort_removed
  abort_removed_aborts u none pool e v = (e, λ t j r q. absurd (cc (v.owned t j r)))
  abort_removed_aborts u (some d) pool e v = (
    lookup-remove_self text_eq u pool.dispatchers v.distinct,
    λ t j r q. absurd (
        cc (
          q,
          removed-owned l u d pool v e t j r,
          lookup-remove_self text_eq u pool.dispatchers v.distinct,
        )),
  )

  -- On a valid pool, after `destroy_dispatcher` the pool does not hold the name, and every dispatcher
  -- for it has been told to stop.
  pub destroy_dispatcher_aborts :
      (u : Text) (pool : BroadcastPool rt) → IsValid l pool → Gone u (destroy_dispatcher u pool)
  unfolding destroy_dispatcher has
  destroy_dispatcher_aborts u pool v =
      let (free, ended) = abort_removed_aborts u (lookup text_eq u pool.dispatchers) pool refl v in
      (ap is_some free, ended)

  abort_removed-Gone :
      (u o : Text) (x : Option rt.Task) (pool : BroadcastPool rt)
      → Gone o pool
      → Gone o (abort_removed x u pool)
  unfolding abort_removed has
  abort_removed-Gone u o none pool g = g
  abort_removed-Gone u o (some d) pool (free, idle) = (
    ap is_some (lookup-remove-none text_eq o u pool.dispatchers (has-none o pool free)),
    λ t j e. elim (l.task_eq t d) [
      | yes same ↦ absurd (cc (same, l.abort_marks d pool.executor))
      | no other ↦ idle t j (sym (l.abort_keeps d t pool.executor other) ∙ e)
    ],
  )

  -- A name that is gone stays so when another is taken away.
  pub destroy_dispatcher-Gone :
      (u o : Text) (pool : BroadcastPool rt) → Gone o pool → Gone o (destroy_dispatcher u pool)
  unfolding destroy_dispatcher
  destroy_dispatcher-Gone u o pool g =
      abort_removed-Gone u o (lookup text_eq u pool.dispatchers) pool g

  abort_removed-broadcaster :
      (u : Text) (x : Option rt.Task) (pool : BroadcastPool rt)
      → (abort_removed x u pool).broadcaster ≡ pool.broadcaster
  unfolding abort_removed
  abort_removed-broadcaster u none pool = refl
  abort_removed-broadcaster u (some d) pool = refl

  pub destroy-broadcaster :
      (u : Text) (pool : BroadcastPool rt)
      → (destroy_dispatcher u pool).broadcaster ≡ pool.broadcaster
  unfolding destroy_dispatcher
  destroy-broadcaster u pool = abort_removed-broadcaster u (lookup text_eq u pool.dispatchers) pool

  -- What the channel has carried after one more send, which fails or adds the message.
  abbrev pub Carries : SharedServerMessage → rt.Sender → rt.Sender → Type 0
  Carries m b b' =
      (((rt.send m b).0 ≡ err tt) × (l.sent b' ≡ l.sent b))
      ⊎ ((n : ℕ) × ((rt.send m b).0 ≡ ok n) × (l.sent b' ≡ l.sent b ++ m ∷ []))

  pub Carries-between :
      (m : SharedServerMessage) (a a' b b' : rt.Sender)
      → a ≡ a'
      → b ≡ b'
      → Carries m a b
      → Carries m a' b'
  Carries-between m a a' b b' p q h = rw (← p, ← q) h

  pub broadcast-Carries :
      (m : SharedServerMessage) (pool : BroadcastPool rt)
      → Carries m pool.broadcaster (broadcast_message m pool).1.broadcaster
  unfolding broadcast_message
  broadcast-Carries m pool = elim (Result-cases (rt.send m pool.broadcaster).0) [
    | inl (n, e) ↦ inr (n, e, l.send_ok m pool.broadcaster e)
    | inr (_, e) ↦ inl (e, l.send_err m pool.broadcaster e)
  ]

  -- A dispatcher made for a name that is taken: the older one is not told to stop, and nothing that the pool
  -- does with the name reaches it any more.
  pub create_dispatcher_orphans :
      (u : Text) (w : W) (c : MessageCache) (pool : BroadcastPool rt) (t : rt.Task)
      (j : Dispatcher rt.Receiver W)
      → lookup text_eq u pool.dispatchers ≡ some t
      → l.unaborted pool.executor t ≡ some j
      → (l.unaborted (create_dispatcher u w c pool).executor t ≡ some j)
        × (l.unaborted (destroy_dispatcher u (create_dispatcher u w c pool)).executor t ≡ some j)
  unfolding create_dispatcher destroy_dispatcher abort_removed
  create_dispatcher_orphans u w c pool t j held runs =
      let other : t ≢ (spawned u w c pool) =
        λ e. absurd (cc (e, runs, l.spawn_new (job u w c pool) pool.executor)) in
      let still = l.spawn_keeps (job u w c pool) pool.executor t other ∙ runs in
      (
        still,
        rw (lookup-insert_self text_eq u (spawned u w c pool) pool.dispatchers)
            (l.abort_keeps _ t _ other ∙ still),
      )
