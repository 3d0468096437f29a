-- ===== src/System/Handshake.antt =====
-- Joining: the client's first round (chat-client/src/client.rs), the handler's steps up to the chat
-- (chat-server/src/client_handler.rs), and the dispatcher's welcome (chat-server/src/broadcast.rs).
use simple_chat_ddn.Common.{◌≡◌, refl, ap, ◌∙◌, ok, ◌++◌, false}
use simple_chat_ddn.Common.Text.{Text, Bytes}
use simple_chat_ddn.Core.Bincode.{Codec, IsLawful}
use simple_chat_ddn.Core.Stream.{Reader, Writer, IsReader, IsPrompt, IsWriter}
use simple_chat_ddn.Core.Message.Client.{ClientMessage, join}
use simple_chat_ddn.Core.Message.Server.{ServerMessage, new_user_joined, new as news}
use simple_chat_ddn.Core.MessageCache.{MessageCache}
use simple_chat_ddn.Core.Transport.{write_message_to_stream}
use simple_chat_ddn.Core.Transport.Reading.{read_message_frame}
use simple_chat_ddn.Core.Transport.Sequences.{Fits}
use simple_chat_ddn.Core.Transport.Writing.{write_message_to_stream_ok}
use simple_chat_ddn.Core.Utils.{validate_username}
use simple_chat_ddn.Server.Dispatcher.{welcome}
use simple_chat_ddn.Server.Runtime.{Runtime}
use simple_chat_ddn.Server.Pool.{BroadcastPool, has, create_dispatcher, broadcast_message}
use simple_chat_ddn.Server.Session.{
  joining, registering, chatting, join_with, register, announce, announced, session_step,
  handle_client,
}
use simple_chat_ddn.Client.Commands.{ChatClient, send_client_message}
use simple_chat_ddn.Client.Commands.Sending.{SendsFrame, send_client_message_ok}
use simple_chat_ddn.Client.Usernames.{Input}
use simple_chat_ddn.Client.Join.{returned, answer_buffer, new}
use simple_chat_ddn.Client.Join.Welcome.{first, new_welcomed}
use simple_chat_ddn.System.Arrival.{Arrives, frame-arrives}

module _ {R V : Type 0} {rt : Runtime V} ⦃v : Writer V⦄ ⦃codec : Codec ServerMessage⦄ where
  -- A valid and free name is accepted.
  join_with_free :
      (u : Text) (reader : R) (writer : V) (buffer : Bytes) (pool : BroadcastPool rt)
      → validate_username u ≡ ok tt
      → has u pool ≡ false
      → join_with (ok (join u)) reader writer buffer pool ≡ registering reader writer buffer u
  unfolding join_with
  join_with_free u reader writer buffer pool valid free = rw (valid, free) refl

module _ {R W V : Type 0} ⦃enc : Codec ClientMessage⦄ ⦃codec : Codec ServerMessage⦄ ⦃r : Reader R⦄
    ⦃w : Writer W⦄ ⦃v : Writer V⦄ {sent_down : V → Bytes} {pending_down : R → Bytes}
    (lv : IsWriter v sent_down) (ld : IsReader r pending_down)
    (prompt_down : IsPrompt r pending_down) (law_down : IsLawful codec) (trim : Text → Text) where
  -- The client's side.
  new-welcomed :
      (u : Text) (reader : R) (writer : W) (input : Input) (down : V) (rest : Bytes)
      → let asked = send_client_message (join u) (first u reader writer) in
        let greeted = write_message_to_stream down (welcome u) in
        asked.0 ≡ ok tt
        → greeted.0 ≡ ok tt
        → Fits (welcome u)
        → sent_down down ++ pending_down reader ≡ sent_down greeted.1 ++ rest
        → (reader' : R) × (new trim u reader writer input
            ≡ (returned (ok tt), record asked.1 { reader = reader' }, input))
          × (pending_down reader' ≡ rest)
  unfolding welcome
  new-welcomed u reader writer input down rest e greets fits at =
      let (p, pay, out) =
        write_message_to_stream_ok lv (welcome u) down (write_message_to_stream down (welcome u)).1
          (ap (λ x. (x, (write_message_to_stream down (welcome u)).1)) greets) in
      let (reader', buffer', read, left) =
        read_message_frame ld prompt_down law_down (welcome u) p rest reader answer_buffer pay
          (fits p pay) (frame-arrives p _ _ _ rest out at) in
      (reader', new_welcomed trim u reader writer input _ reader' buffer' e read, left)

module _ {R W S V : Type 0} {rt : Runtime V} ⦃enc : Codec ClientMessage⦄
    ⦃codec : Codec ServerMessage⦄ ⦃r : Reader R⦄ ⦃w : Writer W⦄ ⦃sr : Reader S⦄ ⦃v : Writer V⦄
    {sent : W → Bytes} {pending : S → Bytes} {sent_down : V → Bytes} {pending_down : R → Bytes}
    (lw : IsWriter w sent) (lr : IsReader sr pending) (prompt : IsPrompt sr pending)
    (lv : IsWriter v sent_down) (ld : IsReader r pending_down)
    (prompt_down : IsPrompt r pending_down) (law : IsLawful enc) (law_down : IsLawful codec)
    (trim : Text → Text) where
  -- The handler's three steps.
  handle_client-joined :
      (u : Text) (client client' : ChatClient R W) (cache : MessageCache) (reader : S) (writer : V)
      (buffer rest : Bytes) (pool : BroadcastPool rt)
      → SendsFrame lw (join u) client client'
      → Fits (join u)
      → Arrives sent pending client client' reader rest
      → validate_username u ≡ ok tt
      → has u pool ≡ false
      → (reader' : S) × (buffer' : Bytes) × (handle_client cache 3
            (joining reader writer buffer)
            pool
          ≡ announce reader' buffer' u (create_dispatcher u writer cache pool))
        × (pending reader' ≡ rest)
  unfolding handle_client session_step register SendsFrame
  handle_client-joined u client client' cache reader writer buffer rest pool (p, e, out, _) fits at
        valid free =
      let (reader', buffer', read, left) =
        read_message_frame lr prompt law (join u) p rest reader buffer e (fits p e)
          (frame-arrives p _ _ _ rest out at) in
      (
        reader',
        buffer',
        ap (λ x. handle_client cache 2 (join_with x.0 x.1 writer x.2 pool) pool) read
            ∙ ap (λ x. handle_client cache 2 x pool)
                (join_with_free u reader' writer buffer' pool valid free),
        left,
      )

  -- Joining works between the two programs. If the client's first `Join` is sent with success and
  -- is what the stream of a fresh handler begins with, the name is valid and the pool does not hold
  -- it, then three steps of it bring the handler into the chat, with a dispatcher for the name in
  -- the pool and its `UserJoined` broadcast; and if the welcome is written with success and is what
  -- the client's stream begins with, `ChatClient::new` returns with success, under that name. What
  -- follows stays on both streams. The codecs are lawful, both messages are within the limit, and
  -- the streams deliver what is asked for when they have as much.
  pub new-handle_client :
      (u : Text) (down : R) (up : W) (input : Input) (cache : MessageCache) (reader : S)
      (writer : V) (buffer rest rest_down : Bytes) (pool : BroadcastPool rt)
      → let asked = send_client_message (join u) (first u down up) in
        let greeted = write_message_to_stream writer (welcome u) in
        let after = handle_client cache 3 (joining reader writer buffer) pool in
        let joined = new trim u down up input in
        asked.0 ≡ ok tt
        → Fits (join u)
        → Arrives sent pending (first u down up) asked.1 reader rest
        → validate_username u ≡ ok tt
        → has u pool ≡ false
        → greeted.0 ≡ ok tt
        → Fits (welcome u)
        → sent_down writer ++ pending_down down ≡ sent_down greeted.1 ++ rest_down
        → (reader' : S) × (buffer' : Bytes) × (after.0 ≡ chatting reader' buffer' u)
          × (after.1
              ≡ (broadcast_message
                  (news (new_user_joined u))
                  (create_dispatcher u writer cache pool)).1)
          × (pending reader' ≡ rest)
          × (joined.0 ≡ returned (ok tt))
          × (joined.1.username ≡ u)
          × (pending_down joined.1.reader ≡ rest_down)
  unfolding announce announced broadcast_message SendsFrame
  new-handle_client u down up input cache reader writer buffer rest rest_down pool e fits at valid
        free greets fits_down at_down =
      let asked = send_client_message (join u) (first u down up) in
      let sends = send_client_message_ok lw (join u) (first u down up) e in
      let (reader', buffer', steps, left) =
        handle_client-joined u (first u down up) asked.1 cache reader writer buffer rest pool sends
          fits at valid free in
      let (down', joins, left_down) =
        new-welcomed lv ld prompt_down law_down trim u down up input writer rest_down e greets
          fits_down at_down in
      (
        reader',
        buffer',
        ap (λ x. x.0) steps,
        ap (λ x. x.1) steps,
        left,
        ap (λ x. x.0) joins,
        ap (λ x. x.1.username) joins ∙ sends.3,
        ap (λ x. pending_down x.1.reader) joins ∙ left_down,
      )
