-- ===== src/Server/Session/Chat.antt =====
-- What a handler does in the chat when its client leaves.
use simple_chat_ddn.Common.{◌≡◌, refl, sym, ok}
use simple_chat_ddn.Common.Text.{Text, Bytes}
use simple_chat_ddn.Core.Bincode.{Codec}
use simple_chat_ddn.Core.Stream.{Reader, Writer}
use simple_chat_ddn.Core.MessageCache.{MessageCache}
use simple_chat_ddn.Core.Message.Client.{ClientMessage, leave}
use simple_chat_ddn.Core.Message.Server.{ServerMessage, user_left, new, new_user_left}
use simple_chat_ddn.Server.Runtime.{Runtime, IsRuntime}
use simple_chat_ddn.Server.Pool.{BroadcastPool, has, destroy_dispatcher, broadcast_message}
use simple_chat_ddn.Server.Pool.Ownership.{
  IsValid, destroy_dispatcher-IsValid, broadcast_message-IsValid,
}
use simple_chat_ddn.Server.Pool.Removal.{
  Gone, Carries, Carries-between, broadcast-Carries, destroy_dispatcher_aborts,
  destroy_dispatcher-Gone, destroy-broadcaster,
}
use simple_chat_ddn.Server.Session.{
  ended, announced, announce_left, left, chat_with, session_step, handle_client,
}

module _ {R W : Type 0} {rt : Runtime W} ⦃r : Reader R⦄ ⦃w : Writer W⦄ ⦃enc : Codec ClientMessage⦄
    ⦃codec : Codec ServerMessage⦄ (l : IsRuntime rt) where
  -- On a valid pool, a `Leave` in the chat ends the session without an error, with the two steps
  -- that follow, if no other handler comes between. It takes away the dispatcher of the name that
  -- the message carries and that of the session's own name: neither is held, and every dispatcher
  -- for them has been told to stop. The channel gets a `UserLeft` for the first name only, or the
  -- send fails and it gets nothing.
  pub chat_leave :
      (cache : MessageCache) (reader : R) (buffer : Bytes) (user other : Text)
      (pool : BroadcastPool rt)
      → IsValid l pool
      → let (s, pool₁) = chat_with (ok (leave other)) reader buffer user pool in
        let (s', pool') = handle_client cache 2 s pool₁ in
        (s' ≡ ended (ok tt))
        × Gone l other pool'
        × Gone l user pool'
        × Carries l (record { shared = user_left other }) pool.broadcaster pool'.broadcaster
  unfolding chat_with handle_client session_step announce_left announced left broadcast_message new
      new_user_left has
  chat_leave cache reader buffer user other pool v =
      let p₁ = destroy_dispatcher other pool in
      let p₂ = (broadcast_message (new (new_user_left other)) p₁).1 in
      let v₁ = destroy_dispatcher-IsValid l other pool v in
      let v₂ = broadcast_message-IsValid l (new (new_user_left other)) p₁ v₁ in
      (
        refl,
        destroy_dispatcher-Gone l user other p₂ (destroy_dispatcher_aborts l other pool v),
        destroy_dispatcher_aborts l user p₂ v₂,
        Carries-between l _ _ _ _ _ (destroy-broadcaster l other pool)
            (sym (destroy-broadcaster l user p₂)) (broadcast-Carries l _ p₁),
      )
