-- ===== src/Server/Pool/Shutdown.antt =====
-- What `BroadcastPool::shutdown` leaves.
use simple_chat_ddn.Common.{
  ◌≡◌, ◌≢◌, refl, sym, ap, ◌∙◌, none, some, Bool, false, List, [], ◌∷◌, All, arith, Bool-cases,
  Option, Option-cases, inl, inr, if◌then◌else◌,
}
use simple_chat_ddn.Common.Text.{Text, text_eq}
use simple_chat_ddn.Common.Map.{Map, lookup, remove}
use simple_chat_ddn.Server.Dispatcher.{Dispatcher}
use simple_chat_ddn.Server.Runtime.{Runtime, IsRuntime}
use simple_chat_ddn.Server.Pool.{
  BroadcastPool, is_some, has, take_entries, abort_all, shut, shutdown,
}
use simple_chat_ddn.Server.Pool.Ownership.{IsValid}

module _ {A : Type 0} where
  -- The tasks of the entries, pushed one after the other.
  abbrev taken_from : Map Text A → List A → List A
  taken_from [] taken = taken
  taken_from ((u, t) ∷ m) taken = taken_from m (t ∷ taken)

  pub remove_head : (u : Text) (t : A) (m : Map Text A) → remove text_eq u ((u, t) ∷ m) ≡ m
  unfolding remove
  remove_head u t m = ground arith

  take_entries_all :
      (blocks : Text → Bool)
      → ((u : Text) → blocks u ≡ false)
      → (m : Map Text A) (taken : List A)
      → take_entries blocks m m taken ≡ some ([], taken_from m taken)
  unfolding take_entries
  take_entries_all blocks free [] taken = refl
  take_entries_all blocks free ((u, t) ∷ m) taken =
      rw (free u, remove_head u t m) (take_entries_all blocks free m (t ∷ taken))

  -- A call that returns has removed every entry.
  take_entries-some :
      (blocks : Text → Bool) (m : Map Text A) (taken : List A) (x : Map Text A × List A)
      → take_entries blocks m m taken ≡ some x
      → x.0 ≡ []
  unfolding take_entries
  take_entries-some blocks [] taken x e = cc e
  take_entries-some blocks ((u, t) ∷ m) taken x e = elim (Bool-cases (blocks u)) [
    | inl stays ↦ absurd (ground (arith, e, stays))
    | inr free ↦ take_entries-some blocks m (t ∷ taken) x (
        sym (ap (λ y. take_entries blocks m y (t ∷ taken)) (remove_head u t m))
        ∙ sym (
            ap
              (λ b.
                if b
                then none
                else take_entries blocks m (remove text_eq u ((u, t) ∷ m)) (t ∷ taken))
              free)
        ∙ e)
  ]

  All-taken :
      (P : A → Type 0) (m : Map Text A) (taken : List A) → All P (taken_from m taken) → All P taken
  All-taken P [] taken h = h
  All-taken P ((u, t) ∷ m) taken h = (All-taken P m (t ∷ taken) h).1

  held-taken :
      (u : Text) (t : A) (m : Map Text A) (taken : List A)
      → lookup text_eq u m ≡ some t
      → ¬ All (λ s. t ≢ s) (taken_from m taken)
  unfolding lookup
  held-taken u t [] taken e h = absurd (cc)
  held-taken u t ((v, s) ∷ m) taken e h = elim (text_eq v u) [
    | yes same ↦ (All-taken (λ x. t ≢ x) m (s ∷ taken) h).0 (ground arith)
    | no other ↦ held-taken u t m (s ∷ taken) (ground arith) h
  ]

module _ {W : Type 0} {rt : Runtime W} where
  abort_all-dispatchers :
      (ts : List rt.Task) (pool : BroadcastPool rt)
      → (abort_all ts pool).dispatchers ≡ pool.dispatchers
  unfolding abort_all
  abort_all-dispatchers [] pool = refl
  abort_all-dispatchers (s ∷ ts) pool =
      abort_all-dispatchers ts (record pool { executor = rt.abort s pool.executor })

  shut-some :
      (pool pool' : BroadcastPool rt) (o : Option (Map Text rt.Task × List rt.Task))
      → ((x : Map Text rt.Task × List rt.Task) → o ≡ some x → x.0 ≡ [])
      → shut pool o ≡ some pool'
      → pool'.dispatchers ≡ []
  unfolding shut
  shut-some pool pool' none empty e = absurd (cc e)
  shut-some pool pool' (some (m, taken)) empty e =
      let left : BroadcastPool rt = record pool { dispatchers = m } in
      let same : abort_all taken left ≡ pool' = ground (arith, e) in
      ap (λ p. p.dispatchers) (sym same) ∙ abort_all-dispatchers taken left ∙ empty (m, taken) refl

  abort_all-broadcaster :
      (ts : List rt.Task) (pool : BroadcastPool rt)
      → (abort_all ts pool).broadcaster ≡ pool.broadcaster
  unfolding abort_all
  abort_all-broadcaster [] pool = refl
  abort_all-broadcaster (s ∷ ts) pool =
      abort_all-broadcaster ts (record pool { executor = rt.abort s pool.executor })

  shut-broadcaster :
      (pool pool' : BroadcastPool rt) (o : Option (Map Text rt.Task × List rt.Task))
      → shut pool o ≡ some pool'
      → pool'.broadcaster ≡ pool.broadcaster
  unfolding shut
  shut-broadcaster pool pool' none e = absurd (cc e)
  shut-broadcaster pool pool' (some (m, taken)) e =
      let left : BroadcastPool rt = record pool { dispatchers = m } in
      let same : abort_all taken left ≡ pool' = ground (arith, e) in
      ap (λ p. p.broadcaster) (sym same) ∙ abort_all-broadcaster taken left

  -- A `shutdown` that returns leaves the channel.
  pub shutdown-broadcaster :
      (blocks : Text → Bool) (pool pool' : BroadcastPool rt)
      → shutdown blocks pool ≡ some pool'
      → pool'.broadcaster ≡ pool.broadcaster
  unfolding shutdown
  shutdown-broadcaster blocks pool pool' e = shut-broadcaster pool pool' _ e

  pub has-empty : (u : Text) (pool : BroadcastPool rt) → pool.dispatchers ≡ [] → has u pool ≡ false
  unfolding has is_some lookup
  has-empty u pool e = ap (λ m. is_some (lookup text_eq u m)) e

  -- A `shutdown` that returns leaves no name.
  pub shutdown_some :
      (blocks : Text → Bool) (pool pool' : BroadcastPool rt)
      → shutdown blocks pool ≡ some pool'
      → pool'.dispatchers ≡ []
  unfolding shutdown
  shutdown_some blocks pool pool' e =
      shut-some pool pool' _ (take_entries-some blocks pool.dispatchers []) e

module _ {W : Type 0} {rt : Runtime W} (l : IsRuntime rt) where
  abort_all_unaborted :
      (ts : List rt.Task) (pool : BroadcastPool rt) (t : rt.Task) {j : Dispatcher rt.Receiver W}
      → l.unaborted (abort_all ts pool).executor t ≡ some j
      → (l.unaborted pool.executor t ≡ some j) × All (λ s. t ≢ s) ts
  unfolding abort_all
  abort_all_unaborted [] pool t e = (e, tt)
  abort_all_unaborted (s ∷ ts) pool t e =
      let (e', others) =
        abort_all_unaborted ts (record pool { executor = rt.abort s pool.executor }) t e in
      elim (l.task_eq t s) [
        | yes same ↦ absurd (cc (same, l.abort_marks s pool.executor))
        | no other ↦ (sym (l.abort_keeps s t pool.executor other) ∙ e', (other, others))
      ]

  -- A task is told to stop if it was so before, or is one of these.
  not_unaborted :
      (ts : List rt.Task) (pool : BroadcastPool rt) (t : rt.Task)
      → ((j : Dispatcher rt.Receiver W)
          → l.unaborted pool.executor t ≡ some j
          → ¬ All (λ s. t ≢ s) ts)
      → l.unaborted (abort_all ts pool).executor t ≡ none
  not_unaborted ts pool t clash = elim (Option-cases (l.unaborted (abort_all ts pool).executor t)) [
    | inl e ↦ e
    | inr (j, e) ↦ let (e', others) = abort_all_unaborted ts pool t e in absurd (clash j e' others)
  ]

  -- On a valid pool, if every removal returns, `shutdown` returns with no name held and every
  -- dispatcher told to stop.
  shutdown_aborts :
      (blocks : Text → Bool) (pool : BroadcastPool rt)
      → IsValid l pool
      → ((u : Text) → blocks u ≡ false)
      → (pool' : BroadcastPool rt) × (shutdown blocks pool ≡ some pool')
        × (pool'.dispatchers ≡ [])
        × ((t : rt.Task) → l.unaborted pool'.executor t ≡ none)
  unfolding shutdown shut
  shutdown_aborts blocks pool v free =
      let ts = taken_from pool.dispatchers [] in
      let left : BroadcastPool rt = record pool { dispatchers = [] } in
      (
        abort_all ts left,
        ap (shut pool) (take_entries_all blocks free pool.dispatchers []),
        abort_all-dispatchers ts left,
        λ t.
            not_unaborted ts left t (λ j e others.
              held-taken j.channel_owner t pool.dispatchers [] (v.owned t j e) others),
      )
