-- ===== src/Server/Live/Polling.antt =====
-- One task of a living server left to run.
use simple_chat_ddn.Common.{
  ℕ, zero, suc, ◌≡◌, refl, ap, ◌∙◌, some, Bool, false, List, [], ◌∷◌, get_elem?, replicate,
}
use simple_chat_ddn.Common.Text.{Text}
use simple_chat_ddn.Core.Bincode.{Codec}
use simple_chat_ddn.Core.Stream.{Reader, Writer}
use simple_chat_ddn.Core.Message.Client.{ClientMessage}
use simple_chat_ddn.Core.Message.Server.{ServerMessage}
use simple_chat_ddn.Core.MessageCache.{StdHash, MessageCache}
use simple_chat_ddn.Server.Runtime.{Runtime, IsRuntime}
use simple_chat_ddn.Server.Pool.{BroadcastPool}
use simple_chat_ddn.Server.Forwarder.{Receiving, poll}
use simple_chat_ddn.Server.Forwarder.Alone.{polls}
use simple_chat_ddn.Server.Live.{Task, Live, polled, poll_task, poll_nth, step, run}

module _ {V : Type 0} {rt : Runtime V} (l : IsRuntime rt) (rc : Receiving rt) ⦃w : Writer V⦄
    ⦃c : Codec ServerMessage⦄ ⦃h : StdHash⦄ where
  pub running_turn :
      (t : Task rt) (pool : BroadcastPool rt) (cache : MessageCache)
      → t.cancelled ≡ false
      → poll_task l rc t pool cache ≡ (
        record t { forwarder = (poll rc t.forwarder pool.broadcaster cache).0 },
        (poll rc t.forwarder pool.broadcaster cache).1,
      )
  unfolding poll_task
  running_turn t pool cache e = rw e refl

  pub nth_turn :
      (n : ℕ) (ts : List (Task rt)) (t : Task rt) (pool : BroadcastPool rt) (cache : MessageCache)
      → get_elem? ts n ≡ some t
      → (get_elem? (poll_nth l rc n ts pool cache).0 n ≡ some (poll_task l rc t pool cache).0)
        × ((poll_nth l rc n ts pool cache).1 ≡ (poll_task l rc t pool cache).1)
  unfolding poll_nth
  nth_turn n [] t pool cache e = absurd (cc e)
  nth_turn zero (s ∷ ts) t pool cache e =
      let same : s ≡ t = cc e in
      (
        ap (λ x. some (poll_task l rc x pool cache).0) same,
        ap (λ x. (poll_task l rc x pool cache).1) same,
      )
  nth_turn (suc n) (s ∷ ts) t pool cache e = nth_turn n ts t pool cache e

  module _ {R : Type 0} ⦃r : Reader R⦄ ⦃cc : Codec ClientMessage⦄ (blocks : Text → Bool)
      (n : ℕ) where
    abbrev pool_of : Live R rt → BroadcastPool rt
    pool_of s = s.service.server.broadcast_pool

    -- Turns of the task, and of nothing else: it runs as it does alone, and the pool is left alone.
    pub run-polls :
        (k : ℕ) (s : Live R rt) (t : Task rt)
        → get_elem? s.tasks n ≡ some t
        → t.cancelled ≡ false
        → let s' = run l rc blocks (replicate k (polled n)) s in
          (get_elem? s'.tasks n
            ≡ some (record t {
              forwarder = (polls rc (pool_of s).broadcaster k t.forwarder s.service.server.cache).0;
            }))
          × (pool_of s' ≡ pool_of s)
    unfolding run polls step
    run-polls zero s t e live = (e, refl)
    run-polls (suc k) s t e live =
        let cache = s.service.server.cache in
        let channel = (pool_of s).broadcaster in
        let (f, cache') = poll rc t.forwarder channel cache in
        let (there, left) = nth_turn n s.tasks t (pool_of s) cache e in
        let turn = running_turn t (pool_of s) cache live in
        let (at, same) =
          run-polls k (step l rc blocks (polled n) s) (record t { forwarder = f })
            (there ∙ ap (λ x. some x.0) turn) live in
        (
          at
              ∙ ap (λ x. some (record t { forwarder = (polls rc channel k f x).0 }))
                  (left ∙ ap (λ x. x.1) turn),
          same,
        )
