-- ===== src/Server/Pool/Channel.antt =====
-- What the pool's channel carries, and what a dispatcher's receiver gets of it.
use simple_chat_ddn.Common.{
  ℕ, ◌≡◌, refl, sym, ap, ◌∙◌, Result, ok, err, List, [], ◌∷◌, ◌++◌, length, drop, drop-append,
}
use mathlib.Core.List.{append_assoc, append-nil}
use simple_chat_ddn.Common.Text.{Text}
use simple_chat_ddn.Core.Message.Server.{SharedServerMessage}
use simple_chat_ddn.Core.MessageCache.{MessageCache}
use simple_chat_ddn.Server.Runtime.{Runtime, IsRuntime}
use simple_chat_ddn.Server.Pool.{
  BroadcastPool, create_dispatcher, destroy_dispatcher, broadcast_message,
}
use simple_chat_ddn.Server.Pool.Ownership.{job}
use simple_chat_ddn.Server.Pool.Removal.{destroy-broadcaster}
use simple_chat_ddn.Server.Pool.Registry.{Call, create, destroy, broadcast, call, calls}

sent_if_ok : SharedServerMessage → Result (Unit {0}) ℕ → List SharedServerMessage
sent_if_ok m (ok n) = m ∷ []
sent_if_ok m (err e) = []

module _ {W : Type 0} {rt : Runtime W} where
  -- The message that a call puts on the channel, if the channel takes it.
  carried_by : Call W → BroadcastPool rt → List SharedServerMessage
  unfolding sent_if_ok
  carried_by (create u writer cache) pool = []
  carried_by (destroy u) pool = []
  carried_by (broadcast m) pool = sent_if_ok m (rt.send m pool.broadcaster).0

  -- The messages that the calls put on the channel.
  unfoldable pub carried : List (Call W) → BroadcastPool rt → List SharedServerMessage
  unfolding carried_by
  carried [] pool = []
  carried (c ∷ cs) pool = carried_by c pool ++ carried cs (call c pool)

  module _ (l : IsRuntime rt) where
    -- What a receiver has been sent, read or not.
    abbrev pub backlog : rt.Receiver → rt.Sender → List SharedServerMessage
    backlog receiver sender = drop (l.start receiver) (l.sent sender)

    send-carried :
        (m : SharedServerMessage) (sender : rt.Sender) (r : Result (Unit {0}) ℕ)
        → (rt.send m sender).0 ≡ r
        → l.sent (rt.send m sender).1 ≡ l.sent sender ++ sent_if_ok m r
    unfolding sent_if_ok
    send-carried m sender (ok n) e = l.send_ok m sender e
    send-carried m sender (err _) e = l.send_err m sender e ∙ sym (append-nil (l.sent sender))

    call-carried :
        (c : Call W) (pool : BroadcastPool rt)
        → l.sent (call c pool).broadcaster ≡ l.sent pool.broadcaster ++ carried_by c pool
    unfolding call carried_by create_dispatcher destroy_dispatcher broadcast_message
    call-carried (create u writer cache) pool =
        l.subscribe_keeps pool.broadcaster ∙ sym (append-nil (l.sent pool.broadcaster))
    call-carried (destroy u) pool =
        ap l.sent (destroy-broadcaster l u pool) ∙ sym (append-nil (l.sent pool.broadcaster))
    call-carried (broadcast m) pool = send-carried m pool.broadcaster _ refl

    pub calls-carried :
        (cs : List (Call W)) (pool : BroadcastPool rt)
        → l.sent (calls cs pool).broadcaster ≡ l.sent pool.broadcaster ++ carried cs pool
    unfolding calls carried
    calls-carried [] pool = sym (append-nil (l.sent pool.broadcaster))
    calls-carried (c ∷ cs) pool =
        calls-carried cs (call c pool)
        ∙ ap (λ x. x ++ carried cs (call c pool)) (call-carried c pool)
        ∙ append_assoc (l.sent pool.broadcaster) (carried_by c pool) (carried cs (call c pool))

    -- Through whatever calls come after it is made, the dispatcher of a name is sent exactly the
    -- messages that those calls put on the channel, in their order.
    pub backlog-carried :
        (u : Text) (writer : W) (cache : MessageCache) (pool : BroadcastPool rt)
        (cs : List (Call W))
        → let joined = create_dispatcher u writer cache pool in
          backlog (job u writer cache pool).rec (calls cs joined).broadcaster ≡ carried cs joined
    backlog-carried u writer cache pool cs =
        let joined = create_dispatcher u writer cache pool in
        let kept : l.sent joined.broadcaster ≡ l.sent pool.broadcaster =
          unfold create_dispatcher in l.subscribe_keeps pool.broadcaster in
        let channel = calls-carried cs joined ∙ ap (λ x. x ++ carried cs joined) kept in
        ap (λ n. drop n (l.sent (calls cs joined).broadcaster)) (l.subscribe_start pool.broadcaster)
        ∙ ap (drop (length (l.sent pool.broadcaster))) channel
        ∙ drop-append (l.sent pool.broadcaster) (carried cs joined)
