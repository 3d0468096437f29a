-- ===== src/System/Arrival.antt =====
-- A command on its way: from the client that sends it (chat-client/src/client.rs) to what its
-- handler does with the pool (chat-server/src/client_handler.rs).
use simple_chat_ddn.Common.{◌≡◌, refl, ap, ◌∙◌, ok, ◌++◌, append-cut}
use mathlib.Core.List.{append_assoc}
use simple_chat_ddn.Common.Text.{Text, Bytes, ascii}
use simple_chat_ddn.Core.Bincode.{Codec, IsLawful}
use simple_chat_ddn.Core.Stream.{Reader, Writer, IsReader, IsPrompt, IsWriter}
use simple_chat_ddn.Core.Message.Client.{ClientMessage, leave, message}
use simple_chat_ddn.Core.Message.Server.{ServerMessage, new, new_message, user_left}
use simple_chat_ddn.Core.MessageCache.{MessageCache}
use simple_chat_ddn.Core.Protocol.{frame}
use simple_chat_ddn.Core.Transport.Reading.{read_message_frame}
use simple_chat_ddn.Core.Transport.Sequences.{Fits}
use simple_chat_ddn.Server.Runtime.{Runtime, IsRuntime}
use simple_chat_ddn.Server.Pool.{BroadcastPool, broadcast_message}
use simple_chat_ddn.Server.Pool.Ownership.{IsValid}
use simple_chat_ddn.Server.Pool.Removal.{Gone, Carries}
use simple_chat_ddn.Server.Session.{
  chatting, ended, chat_with, announced, session_step, handle_client,
}
use simple_chat_ddn.Server.Session.Chat.{chat_leave}
use simple_chat_ddn.Client.Commands.{ChatClient, handle_user_input, graceful_leave}
use simple_chat_ddn.Client.Commands.Sending.{SendsFrame, handle_user_input_send, graceful_leave_ok}

pub frame-arrives :
    (p a b pend rest : Bytes) → b ≡ a ++ frame p → a ++ pend ≡ b ++ rest → pend ≡ frame p ++ rest
frame-arrives p a b pend rest out at =
    (append-cut a a pend (frame p ++ rest) refl
      (at ∙ ap (λ x. x ++ rest) out ∙ append_assoc a (frame p) rest)).1

module _ {R W S : Type 0} (sent : W → Bytes) (pending : S → Bytes) where
  -- What the client has added to its stream is what the handler's stream begins with.
  abbrev pub Arrives : ChatClient R W → ChatClient R W → S → Bytes → Type 0
  Arrives client client' reader rest =
      sent client.writer ++ pending reader ≡ sent client'.writer ++ rest

module _ {R W S V : Type 0} {rt : Runtime V} ⦃codec : Codec ClientMessage⦄
    ⦃reply : Codec ServerMessage⦄ ⦃w : Writer W⦄ ⦃r : Reader S⦄ ⦃v : Writer V⦄ {sent : W → Bytes}
    {pending : S → Bytes} (lw : IsWriter w sent) (lr : IsReader r pending)
    (prompt : IsPrompt r pending) (law : IsLawful codec) where
  -- A message that is sent in the chat is what the handler's next step is about.
  session_step-sent :
      (m : ClientMessage) (client client' : ChatClient R W) (cache : MessageCache) (reader : S)
      (buffer rest : Bytes) (user : Text) (pool : BroadcastPool rt)
      → SendsFrame lw m client client'
      → Fits m
      → Arrives sent pending client client' reader rest
      → (reader' : S) × (buffer' : Bytes) × (session_step cache (chatting reader buffer user) pool
          ≡ chat_with (ok m) reader' buffer' user pool)
        × (pending reader' ≡ rest)
  unfolding session_step SendsFrame
  session_step-sent m client client' cache reader buffer rest user pool (p, e, out, _) fits at =
      let (reader', buffer', read, left) =
        read_message_frame lr prompt law m p rest reader buffer e (fits p e)
          (frame-arrives p _ _ _ rest out at) in
      (reader', buffer', ap (λ x. chat_with x.0 x.1 x.2 user pool) read, left)

  -- If the client's command "send " with a text succeeds, and what it added to its stream is what
  -- the stream of a handler in the chat begins with, the next step of that handler broadcasts a
  -- `Message` with the client's name and that text, the handler stays in the chat, and what follows
  -- stays on its stream. The codec is lawful, the message is within the limit, and the stream
  -- delivers what is asked for when it has as much.
  pub handle_user_input-session_step :
      (content : Text) (client : ChatClient R W) (cache : MessageCache) (reader : S)
      (buffer rest : Bytes) (user : Text) (pool : BroadcastPool rt)
      → let done = handle_user_input (ascii "send " ++ content) client in
        done.0 ≡ ok tt
        → Fits (message client.username content)
        → Arrives sent pending client done.1 reader rest
        → (reader' : S) × (buffer' : Bytes) × (session_step cache (chatting reader buffer user) pool
            ≡ (
              chatting reader' buffer' user,
              (broadcast_message (new (new_message client.username content)) pool).1,
            ))
          × (pending reader' ≡ rest)
  unfolding chat_with announced broadcast_message
  handle_user_input-session_step content client cache reader buffer rest user pool e fits at =
      session_step-sent _ client _ cache reader buffer rest user pool
        (handle_user_input_send lw content client e) fits at

  -- If the client's `graceful_leave` succeeds, and what it added to its stream is what the stream
  -- of a handler in the chat begins with, the next three steps of that handler, on a valid pool and
  -- if no other handler comes between, end it without an error: the client's name and the handler's
  -- are not held, every dispatcher for them has been told to stop, and the channel gets a
  -- `UserLeft` for the client's name, or the send fails and it gets nothing. The codec is lawful,
  -- the message is within the limit, and the stream delivers what is asked for when it has as much.
  pub graceful_leave-session_step :
      (l : IsRuntime rt) (client : ChatClient R W) (cache : MessageCache) (reader : S)
      (buffer rest : Bytes) (user : Text) (pool : BroadcastPool rt)
      → let done = graceful_leave client in
        let after = handle_client cache 3 (chatting reader buffer user) pool in
        done.0 ≡ ok tt
        → Fits (leave client.username)
        → Arrives sent pending client done.1 reader rest
        → IsValid l pool
        → (after.0 ≡ ended (ok tt))
          × Gone l client.username after.1
          × Gone l user after.1
          × Carries l
              (record { shared = user_left client.username })
              pool.broadcaster
              after.1.broadcaster
  unfolding handle_client
  graceful_leave-session_step l client cache reader buffer rest user pool e fits at valid =
      let (reader', buffer', same, _) =
        session_step-sent _ client _ cache reader buffer rest user pool
          (graceful_leave_ok lw client e) fits at in
      rw same (chat_leave l cache reader' buffer' user client.username pool valid)
