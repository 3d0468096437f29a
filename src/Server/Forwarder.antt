-- ===== src/Server/Forwarder.antt =====
-- chat-server/src/broadcast.rs once more: the task of a dispatcher from one wait to the next. Where
-- Server/Dispatcher runs it against a list of events, here it takes what it receives from the
-- channel, and the cached encoder of chat-core/src/protocol.rs is taken apart at its waits for the
-- lock of the cache, so that others may run there.
pub mod Progress
pub mod Faithful
pub mod Turns
pub mod Polls
pub mod Alone
pub mod CatchingUp
pub mod Returns
use simple_chat_ddn.Common.{
  ℕ, suc, ◌+◌, ◌≤◌, ◌<◌, ◌≡◌, Result, ok, err, map_err, Option, none, some, List, length, get_elem?,
  if◌then◌else◌,
}
use simple_chat_ddn.Common.Text.{Text, Bytes}
use simple_chat_ddn.Core.Error.{ApplicationError, encoding}
use simple_chat_ddn.Core.Bincode.{Codec}
use simple_chat_ddn.Core.Stream.{Writer}
use simple_chat_ddn.Core.Message.Server.{ServerMessage, SharedServerMessage}
use simple_chat_ddn.Core.MessageCache.{StdHash, MessageCache, get, put, hash_message}
use simple_chat_ddn.Core.Protocol.{encode_message}
use simple_chat_ddn.Core.Transport.{write_frame, write_message_to_stream}
use simple_chat_ddn.Server.Dispatcher.{Dispatcher, is_own, shared_codec, welcome, good_bye}
use simple_chat_ddn.Server.Run.{channel_capacity}
use simple_chat_ddn.Server.Runtime.{Runtime, IsRuntime}

-- tokio's `RecvError`.
pub data RecvError : Type 0 where
  lagged : ℕ → RecvError
  closed : RecvError

-- `Receiver::recv`: a result, or none while there is nothing to receive.
pub record Receiving {W : Type 0} (rt : Runtime W) : Type 0 where
  pub recv : rt.Receiver → rt.Sender → Option (Result RecvError SharedServerMessage) × rt.Receiver

-- A receiver gets the message at its position, and goes on to the next. A receiver that lags skips
-- as many messages as it reports, and only then: it is more than the capacity behind.
pub record IsReceiving {W : Type 0} {rt : Runtime W} (l : IsRuntime rt) (rc : Receiving rt)
    : Type 0 where
  pub recv_ok :
      (x : rt.Receiver) (c : rt.Sender) {m : SharedServerMessage}
      → (rc.recv x c).0 ≡ some (ok m)
      → (get_elem? (l.sent c) (l.start x) ≡ some m) × (l.start (rc.recv x c).1 ≡ suc (l.start x))
  pub recv_lagged :
      (x : rt.Receiver) (c : rt.Sender) {n : ℕ}
      → (rc.recv x c).0 ≡ some (err (lagged n))
      → (l.start (rc.recv x c).1 ≡ l.start x + n)
        × (l.start (rc.recv x c).1 ≤ length (l.sent c))
        × (l.start x + channel_capacity < length (l.sent c))
  pub recv_closed :
      (x : rt.Receiver) (c : rt.Sender)
      → (rc.recv x c).0 ≡ some (err closed)
      → l.start (rc.recv x c).1 ≡ l.start x
  pub recv_none :
      (x : rt.Receiver) (c : rt.Sender)
      → (rc.recv x c).0 ≡ none
      → l.start (rc.recv x c).1 ≡ l.start x

-- Where a task waits: before its first turn, in `rec.recv()`, in `cache.get(hash)`, in
-- `cache.put(hash, ..)`, and in `writer.write_all(&frame)`.
pub data Wait : Type 0 where
  starting receiving : Wait
  fetching : (message : SharedServerMessage) (hash : ℕ) → Wait
  storing : (hash : ℕ) (frame_bytes : Bytes) → Wait
  writing : (frame_bytes : Bytes) → Wait
  finished : Result ApplicationError (Unit {0}) → Wait

pub record Forwarder (Rx W : Type 0) : Type 0 where
  pub rec : Rx
  pub channel_owner : Text
  pub writer : W
  pub wait : Wait

-- A task that was spawned and has not run yet.
unfoldable pub begin : {Rx W : Type 0} → Dispatcher Rx W → Forwarder Rx W
begin d = record {
  rec = d.rec;
  channel_owner = d.channel_owner;
  writer = d.writer;
  wait = starting;
}

-- `?` after the welcome or a forwarded frame.
pub go_on : Result ApplicationError (Unit {0}) → Wait
go_on (ok _) = receiving
go_on (err e) = finished (err e)

-- After `hash_message`, after `encode_message`, and after `cache.get`.
pub hashed : SharedServerMessage → Result ApplicationError ℕ → Wait
hashed message (ok hash) = fetching message hash
hashed message (err e) = finished (err e)

encoded : ℕ → Result ApplicationError Bytes → Wait
encoded hash (ok frame_bytes) = storing hash frame_bytes
encoded hash (err e) = finished (err e)

module _ ⦃c : Codec ServerMessage⦄ where
  pub looked_up : SharedServerMessage → ℕ → Option Bytes → Wait
  unfolding encoded
  looked_up message hash (some cached) = writing cached
  looked_up message hash none = encoded hash (encode_message message)

  module _ {Rx W : Type 0} ⦃w : Writer W⦄ ⦃h : StdHash⦄ where
    -- After `rec.recv()`.
    got : Option (Result RecvError SharedServerMessage) → Forwarder Rx W → Forwarder Rx W
    unfolding hashed
    got none f = record f { wait = receiving }
    got (some (ok message)) f = record f {
      wait =
          if is_own f.channel_owner message
          then receiving
          else hashed message (map_err encoding (hash_message message));
    }
    got (some (err (lagged n))) f = record f { wait = receiving }
    got (some (err closed)) f =
        let (result, writer) = write_message_to_stream f.writer (good_bye f.channel_owner) in
        record f { writer = writer; wait = finished result }

module _ {W : Type 0} {rt : Runtime W} (rc : Receiving rt) ⦃c : Codec ServerMessage⦄ ⦃w : Writer W⦄
    ⦃h : StdHash⦄ where
  -- The turn of a task that waits there.
  poll_at :
      Wait
      → Forwarder rt.Receiver W
      → rt.Sender
      → MessageCache
      → Forwarder rt.Receiver W × MessageCache
  unfolding go_on looked_up got
  poll_at starting f channel cache =
      let (result, writer) = write_message_to_stream f.writer (welcome f.channel_owner) in
      (record f { writer = writer; wait = go_on result }, cache)
  poll_at receiving f channel cache =
      let (result, rec) = rc.recv f.rec channel in (got result (record f { rec = rec }), cache)
  poll_at (fetching message hash) f channel cache =
      (record f { wait = looked_up message hash (get hash cache) }, cache)
  poll_at (storing hash frame_bytes) f channel cache =
      (record f { wait = writing frame_bytes }, put hash frame_bytes cache)
  poll_at (writing frame_bytes) f channel cache =
      let (result, writer) = write_frame (ok frame_bytes) f.writer in
      (record f { writer = writer; wait = go_on result }, cache)
  poll_at (finished result) f channel cache = (record f { wait = finished result }, cache)

  -- One turn of the task, to its next wait.
  unfoldable pub poll :
      Forwarder rt.Receiver W → rt.Sender → MessageCache → Forwarder rt.Receiver W × MessageCache
  unfolding poll_at
  poll f channel cache = poll_at f.wait f channel cache
