-- ===== src/Server/Dispatcher.antt =====
-- chat-server/src/broadcast.rs: the task that forwards the channel to one client.
pub mod Delivery
use simple_chat_ddn.Common.{
  ℕ, Result, ok, err, ◌>>=◌, Option, none, some, List, [], ◌∷◌, ◌++◌, Bool, true, false, ite,
  if◌then◌else◌,
}
use simple_chat_ddn.Common.Text.{Text, Bytes, ascii, text_eq}
use simple_chat_ddn.Core.Error.{ApplicationError}
use simple_chat_ddn.Core.Bincode.{Codec}
use simple_chat_ddn.Core.Stream.{Writer}
use simple_chat_ddn.Core.Message.Server.{
  ServerMessage, SharedServerMessage, deref, username, success, new_success,
}
use simple_chat_ddn.Core.MessageCache.{StdHash, MessageCache}
use simple_chat_ddn.Core.Transport.{write_message_to_stream, write_message_to_stream_with_cache}

-- What the task captures. The cache is shared with the other dispatchers.
pub record Dispatcher (Rx W : Type 0) : Type 0 where
  pub rec : Rx
  pub channel_owner : Text
  pub writer : W
  pub cache : MessageCache

-- What the task meets when it is resumed: a result of `recv`, or the shared cache as the others
-- have left it.
pub data Event : Type 0 where
  received : SharedServerMessage → Event
  lagged : ℕ → Event
  closed : Event
  cached : MessageCache → Event

-- The task still waits for the channel, or it has returned.
pub data Progress : Type 0 where
  waiting : Progress
  finished : Result ApplicationError (Unit {0}) → Progress

-- The UTF-8 bytes of the folded hands in the welcome.
abbrev folded_hands : Bytes
folded_hands = 0xf0 ∷ 0x9f ∷ 0x99 ∷ 0x8f ∷ []

unfoldable pub welcome : Text → ServerMessage
welcome owner =
    success (ascii "Welcome to the chat " ++ (folded_hands ++ (ascii " `" ++ (owner ++ ascii "`"))))

unfoldable pub good_bye : Text → ServerMessage
unfolding new_success
good_bye owner = new_success (ascii "Disconnected: Good bye `" ++ (owner ++ ascii "`!"))

-- `if let Some(u) = message.username() && u == channel_owner`
is_from : Text → Option Text → Bool
is_from owner none = false
is_from owner (some u) = ite (text_eq u owner) true false

unfoldable pub is_own : Text → SharedServerMessage → Bool
unfolding is_from deref
is_own owner message = is_from owner (username (deref message))

-- `#[derive(Encode, Decode)]`: a shared message is encoded as the message.
unshare : Result Text (ServerMessage × ℕ) → Result Text (SharedServerMessage × ℕ)
unshare r = r >>= λ (m, n). ok (record { shared = m }, n)

instance unfoldable pub shared_codec : ⦃c : Codec ServerMessage⦄ → Codec SharedServerMessage
unfolding unshare
shared_codec ⦃c⦄ = record {
  encode_to_vec = λ m. c.encode_to_vec m.shared;
  decode_from_slice = λ b. unshare (c.decode_from_slice b);
}

abbrev pub Output : Type 0 → Type 0
Output W = Progress × W × MessageCache

module _ {W : Type 0} ⦃c : Codec ServerMessage⦄ ⦃w : Writer W⦄ ⦃h : StdHash⦄ where
  -- After a write in the loop: `?`, or the next event.
  forwarded :
      (W → MessageCache → Output W)
      → Result ApplicationError (Unit {0}) × W × MessageCache
      → Output W
  forwarded next (ok _, writer, cache) = next writer cache
  forwarded next (err e, writer, cache) = (finished (err e), writer, cache)

  -- After the loop: the farewell.
  farewell : Text → W → MessageCache → Output W
  farewell owner writer cache =
      let (result, writer') = write_message_to_stream writer (good_bye owner) in
      (finished result, writer', cache)

  -- The loop. Where the events end, the task waits.
  unfoldable pub dispatch_loop : Text → List Event → W → MessageCache → Output W
  unfolding forwarded farewell
  dispatch_loop owner [] writer cache = (waiting, writer, cache)
  dispatch_loop owner (received message ∷ events) writer cache =
      let next = dispatch_loop owner events in
      if is_own owner message
      then next writer cache
      else forwarded next (write_message_to_stream_with_cache writer message cache)
  dispatch_loop owner (lagged n ∷ events) writer cache = dispatch_loop owner events writer cache
  dispatch_loop owner (closed ∷ events) writer cache = farewell owner writer cache
  dispatch_loop owner (cached shared ∷ events) writer cache =
      dispatch_loop owner events writer shared

  started : Text → List Event → MessageCache → Result ApplicationError (Unit {0}) × W → Output W
  unfolding dispatch_loop
  started owner events cache (err e, writer) = (finished (err e), writer, cache)
  started owner events cache (ok _, writer) = dispatch_loop owner events writer cache

  -- The task's body: the welcome, and the loop.
  unfoldable pub run_dispatcher : {Rx : Type 0} → Dispatcher Rx W → List Event → Output W
  unfolding started
  run_dispatcher d events =
      started d.channel_owner events d.cache
        (write_message_to_stream d.writer (welcome d.channel_owner))
