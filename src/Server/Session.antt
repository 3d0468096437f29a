-- ===== src/Server/Session.antt =====
-- `handle_client` of chat-server/src/client_handler.rs, as the task that it is: what it holds
-- between two points at which other handlers may run, and a step from each such point to the next.
-- The handlers run on several threads and share the pool, so a step makes one call of it at most, and
-- takes it as the others have left it.
pub mod Chat
pub mod Joining
pub mod Vetting
pub mod Interleaving
use simple_chat_ddn.Common.{
  ℕ, zero, suc, Result, ok, err, map_err, List, [], ◌∷◌, replicate, Bool, true, false,
  if◌then◌else◌,
}
use simple_chat_ddn.Common.Text.{Text, Bytes, ascii}
use simple_chat_ddn.Core.Error.{ApplicationError, stream_io_error}
use simple_chat_ddn.Core.Bincode.{Codec}
use simple_chat_ddn.Core.Stream.{Reader, Writer}
use simple_chat_ddn.Core.Message.Client.{ClientMessage, join, leave, message}
use simple_chat_ddn.Core.Message.Server.{
  ServerMessage, SharedServerMessage, error, new_user_name_already_taken, new_user_joined,
  new_user_left, new_message, new,
}
use simple_chat_ddn.Core.MessageCache.{MessageCache}
use simple_chat_ddn.Core.Protocol.{encode_message}
use simple_chat_ddn.Core.Transport.{read_message_from_stream}
use simple_chat_ddn.Core.Utils.{validate_username}
use simple_chat_ddn.Server.Runtime.{Runtime}
use simple_chat_ddn.Server.Pool.{
  BroadcastPool, has, create_dispatcher, destroy_dispatcher, broadcast_message,
}

-- Before a name is accepted; with an accepted name, before the pool knows it; before its
-- `UserJoined`; in the chat; after the dispatcher of a `Leave` is destroyed, before its `UserLeft`;
-- before the last `destroy_dispatcher`; returned.
pub data Session (R W : Type 0) : Type 0 where
  joining : (reader : R) (writer : W) (buffer : Bytes) → Session R W
  registering : (reader : R) (writer : W) (buffer : Bytes) (username : Text) → Session R W
  announcing : (reader : R) (buffer : Bytes) (user : Text) → Session R W
  chatting : (reader : R) (buffer : Bytes) (user : Text) → Session R W
  leaving : (other user : Text) → Session R W
  finishing : (user : Text) → Session R W
  ended : Result ApplicationError (Unit {0}) → Session R W

-- `vec![0u8; 4096]`
unfoldable pub new_buffer : Bytes
new_buffer = replicate 4096 0

-- `stream.into_split()`, and the read buffer.
unfoldable pub accept : {R W : Type 0} → R → W → Session R W
accept reader writer = joining reader writer new_buffer

abbrev pub must_join : ServerMessage
must_join = error (ascii "You have to join the group before doing any other operation")

module _ {W : Type 0} ⦃w : Writer W⦄ ⦃c : Codec ServerMessage⦄ where
  write_reply : Result ApplicationError Bytes → W → Result ApplicationError (Unit {0}) × W
  write_reply (err e) writer = (err e, writer)
  write_reply (ok frame) writer =
      let (result, writer') = w.write_all frame writer in (map_err stream_io_error result, writer')

  -- `let frame = encode_message(&m)?; writer.write_all(&frame).await?`
  unfoldable pub reply : ServerMessage → W → Result ApplicationError (Unit {0}) × W
  unfolding write_reply
  reply m writer = write_reply (encode_message m) writer

module _ {R W : Type 0} where
  replied : R → Bytes → Result ApplicationError (Unit {0}) × W → Session R W
  replied reader buffer (ok _, writer) = joining reader writer buffer
  replied reader buffer (err e, writer) = ended (err e)

module _ {R W : Type 0} {rt : Runtime W} ⦃w : Writer W⦄ ⦃c : Codec ServerMessage⦄ where
  accepted :
      Result ApplicationError (Unit {0}) → R → W → Bytes → Text → BroadcastPool rt → Session R W
  unfolding replied
  accepted (err e) reader writer buffer un pool = ended (err e)
  accepted (ok _) reader writer buffer un pool =
      if has un pool
      then replied reader buffer (reply (new_user_name_already_taken un) writer)
      else registering reader writer buffer un

  -- A round of the first loop, on what was read.
  unfoldable pub join_with :
      Result ApplicationError ClientMessage → R → W → Bytes → BroadcastPool rt → Session R W
  unfolding accepted replied
  join_with (ok (join un)) reader writer buffer pool =
      accepted (validate_username un) reader writer buffer un pool
  join_with (ok (leave u)) reader writer buffer pool =
      replied reader buffer (reply must_join writer)
  join_with (ok (message u content)) reader writer buffer pool =
      replied reader buffer (reply must_join writer)
  join_with (err _) reader writer buffer pool = joining reader writer buffer

module _ {R W : Type 0} {rt : Runtime W} where
  -- `broadcast_pool.broadcast_message(msg).await?`, and what comes after it.
  unfoldable pub announced :
      (BroadcastPool rt → Session R W × BroadcastPool rt)
      → Result ApplicationError (Unit {0}) × BroadcastPool rt
      → Session R W × BroadcastPool rt
  announced next (ok _, pool) = next pool
  announced next (err e, pool) = (ended (err e), pool)

  -- After the first loop.
  unfoldable pub register :
      MessageCache → R → W → Bytes → Text → BroadcastPool rt → Session R W × BroadcastPool rt
  register cache reader writer buffer user pool =
      (announcing reader buffer user, create_dispatcher user writer cache pool)

  -- Before the second loop.
  unfoldable pub announce : R → Bytes → Text → BroadcastPool rt → Session R W × BroadcastPool rt
  unfolding announced
  announce reader buffer user pool =
      announced (λ p. (chatting reader buffer user, p))
        (broadcast_message (new (new_user_joined user)) pool)

  -- The end of a `Leave`.
  unfoldable pub announce_left : Text → Text → BroadcastPool rt → Session R W × BroadcastPool rt
  unfolding announced
  announce_left other user pool =
      announced (λ p. (finishing user, p)) (broadcast_message (new (new_user_left other)) pool)

  -- After the second loop.
  unfoldable pub left : Text → BroadcastPool rt → Session R W × BroadcastPool rt
  left user pool = (ended (ok tt), destroy_dispatcher user pool)

  -- A round of the second loop, on what was read. A message carries a name of its own.
  unfoldable pub chat_with :
      Result ApplicationError ClientMessage
      → R
      → Bytes
      → Text
      → BroadcastPool rt
      → Session R W × BroadcastPool rt
  unfolding announced left
  chat_with (ok (join _)) reader buffer user pool = (chatting reader buffer user, pool)
  chat_with (ok (leave other)) reader buffer user pool =
      (leaving other user, destroy_dispatcher other pool)
  chat_with (ok (message other content)) reader buffer user pool =
      announced (λ p. (chatting reader buffer user, p))
        (broadcast_message (new (new_message other content)) pool)
  chat_with (err _) reader buffer user pool = left user pool

module _ {R W : Type 0} {rt : Runtime W} ⦃r : Reader R⦄ ⦃w : Writer W⦄ ⦃cc : Codec ClientMessage⦄
    ⦃cs : Codec ServerMessage⦄ (cache : MessageCache) where
  unfoldable pub session_step : Session R W → BroadcastPool rt → Session R W × BroadcastPool rt
  session_step (joining reader writer buffer) pool =
      let (read, reader', buffer') = read_message_from_stream reader buffer in
      (join_with read reader' writer buffer' pool, pool)
  session_step (registering reader writer buffer user) pool =
      register cache reader writer buffer user pool
  session_step (chatting reader buffer user) pool =
      let (read, reader', buffer') = read_message_from_stream reader buffer in
      chat_with read reader' buffer' user pool
  session_step (announcing reader buffer user) pool = announce reader buffer user pool
  session_step (leaving other user) pool = announce_left other user pool
  session_step (finishing user) pool = left user pool
  session_step (ended result) pool = (ended result, pool)

  -- `handle_client` alone with the pool, for so many steps.
  unfoldable pub handle_client : ℕ → Session R W → BroadcastPool rt → Session R W × BroadcastPool rt
  unfolding session_step
  handle_client zero s pool = (s, pool)
  handle_client (suc n) s pool = let (s', pool') = session_step s pool in handle_client n s' pool'
