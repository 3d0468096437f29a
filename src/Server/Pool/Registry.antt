-- ===== src/Server/Pool/Registry.antt =====
-- The pool as what it promises: a set of names, in which a dispatcher adds its name and its end takes
-- it away.
use simple_chat_ddn.Common.{
  ◌≡◌, refl, sym, ap, ◌∙◌, ite, if_pos, if_neg, Option, none, some, Bool, true, false, List, [],
  ◌∷◌,
}
use simple_chat_ddn.Common.Text.{Text, text_eq}
use simple_chat_ddn.Common.Map.{
  lookup, remove, NodupKeys, lookup-insert_self, lookup-insert_ne, lookup-remove_self,
  lookup-remove_ne, insert-NodupKeys, remove-NodupKeys,
}
use simple_chat_ddn.Core.Message.Server.{SharedServerMessage}
use simple_chat_ddn.Core.MessageCache.{MessageCache}
use simple_chat_ddn.Server.Runtime.{Runtime}
use simple_chat_ddn.Server.Pool.{
  BroadcastPool, is_some, has, create_dispatcher, abort_removed, destroy_dispatcher,
  broadcast_message,
}

-- A call of one of the pool's operations.
pub data Call (W : Type 0) : Type 0 where
  create : (username : Text) (writer : W) (cache : MessageCache) → Call W
  destroy : (username : Text) → Call W
  broadcast : (message : SharedServerMessage) → Call W

abbrev pub Names : Type 0
Names = Text → Bool

module _ {W : Type 0} where
  -- What a call promises for the names.
  unfoldable pub names_after : Call W → Names → Names
  names_after (create u writer cache) names = λ v. ite (text_eq v u) true (names v)
  names_after (destroy u) names = λ v. ite (text_eq v u) false (names v)
  names_after (broadcast m) names = names

  pub all_names_after : List (Call W) → Names → Names
  all_names_after [] names = names
  all_names_after (c ∷ cs) names = all_names_after cs (names_after c names)

  module _ {rt : Runtime W} where
    unfoldable pub call : Call W → BroadcastPool rt → BroadcastPool rt
    call (create u writer cache) pool = create_dispatcher u writer cache pool
    call (destroy u) pool = destroy_dispatcher u pool
    call (broadcast m) pool = (broadcast_message m pool).1

    unfoldable pub calls : List (Call W) → BroadcastPool rt → BroadcastPool rt
    unfolding call
    calls [] pool = pool
    calls (c ∷ cs) pool = calls cs (call c pool)

    create_names :
        (u v : Text) (writer : W) (cache : MessageCache) (pool : BroadcastPool rt)
        → has v (create_dispatcher u writer cache pool) ≡ ite (text_eq v u) true (has v pool)
    unfolding has is_some create_dispatcher
    create_names u v writer cache pool = elim (text_eq v u) [
      | yes e ↦
          ap (λ x. is_some (lookup text_eq x (create_dispatcher u writer cache pool).dispatchers)) e
          ∙ ap is_some (lookup-insert_self text_eq u _ pool.dispatchers)
          ∙ sym (if_pos (text_eq v u) e true _)
      | no n ↦
          ap is_some (lookup-insert_ne text_eq u v _ pool.dispatchers n)
          ∙ sym (if_neg (text_eq v u) n true _)
    ]

    destroy_names :
        (u v : Text) (o : Option rt.Task) (pool : BroadcastPool rt)
        → lookup text_eq u pool.dispatchers ≡ o
        → NodupKeys text_eq pool.dispatchers
        → has v (abort_removed o u pool) ≡ ite (text_eq v u) false (has v pool)
    unfolding has is_some abort_removed
    destroy_names u v none pool e d = elim (text_eq v u) [
      | yes same ↦
          ap (λ x. is_some (lookup text_eq x pool.dispatchers)) same
          ∙ ap is_some e
          ∙ sym (if_pos (text_eq v u) same false _)
      | no n ↦ sym (if_neg (text_eq v u) n false _)
    ]
    destroy_names u v (some t) pool e d = elim (text_eq v u) [
      | yes same ↦
          ap (λ x. is_some (lookup text_eq x (remove text_eq u pool.dispatchers))) same
          ∙ ap is_some (lookup-remove_self text_eq u pool.dispatchers d)
          ∙ sym (if_pos (text_eq v u) same false _)
      | no n ↦
          ap is_some (lookup-remove_ne text_eq u v pool.dispatchers n)
          ∙ sym (if_neg (text_eq v u) n false _)
    ]

    removed_distinct :
        (u : Text) (o : Option rt.Task) (pool : BroadcastPool rt)
        → NodupKeys text_eq pool.dispatchers
        → NodupKeys text_eq (abort_removed o u pool).dispatchers
    unfolding abort_removed
    removed_distinct u none pool d = d
    removed_distinct u (some t) pool d = remove-NodupKeys text_eq u pool.dispatchers d

    pub call_distinct :
        (c : Call W) (pool : BroadcastPool rt)
        → NodupKeys text_eq pool.dispatchers
        → NodupKeys text_eq (call c pool).dispatchers
    unfolding call create_dispatcher destroy_dispatcher broadcast_message
    call_distinct (create u writer cache) pool d = insert-NodupKeys text_eq u _ pool.dispatchers d
    call_distinct (destroy u) pool d = removed_distinct u (lookup text_eq u pool.dispatchers) pool d
    call_distinct (broadcast m) pool d = d

    abbrev pub names_of : BroadcastPool rt → Names
    names_of pool = λ v. has v pool

    pub call_names :
        (c : Call W) (pool : BroadcastPool rt) (v : Text)
        → NodupKeys text_eq pool.dispatchers
        → has v (call c pool) ≡ names_after c (names_of pool) v
    unfolding call names_after destroy_dispatcher broadcast_message has
    call_names (create u writer cache) pool v d = create_names u v writer cache pool
    call_names (destroy u) pool v d =
        destroy_names u v (lookup text_eq u pool.dispatchers) pool refl d
    call_names (broadcast m) pool v d = refl

    -- Whatever its operations are called with, and in whatever order, a pool that holds each name
    -- once refines a set of names: `create_dispatcher` adds its name, `destroy_dispatcher` takes
    -- its name away, and `broadcast_message` leaves the set alone, as `has` tells.
    calls-all_names_after :
        (cs : List (Call W)) (pool : BroadcastPool rt)
        → NodupKeys text_eq pool.dispatchers
        → names_of (calls cs pool) ≡ all_names_after cs (names_of pool)
    unfolding calls all_names_after
    calls-all_names_after [] pool d = refl
    calls-all_names_after (c ∷ cs) pool d =
        calls-all_names_after cs (call c pool) (call_distinct c pool d)
        ∙ ap (all_names_after cs) (λ i v. call_names c pool v d i)
