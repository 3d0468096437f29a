-- ===== src/Server/Forwarder/Returns.antt =====
-- A task that returns by itself, after a write that failed.
use simple_chat_ddn.Common.{◌≡◌, refl, ap, ok, err}
use simple_chat_ddn.Common.Text.{Bytes}
use simple_chat_ddn.Core.Bincode.{Codec}
use simple_chat_ddn.Core.Error.{ApplicationError}
use simple_chat_ddn.Core.Stream.{Writer}
use simple_chat_ddn.Core.Message.Server.{ServerMessage}
use simple_chat_ddn.Core.MessageCache.{StdHash, MessageCache}
use simple_chat_ddn.Core.Transport.{write_frame}
use simple_chat_ddn.Server.Runtime.{Runtime}
use simple_chat_ddn.Server.Forwarder.{Forwarder, Receiving, writing, finished, go_on, poll, poll_at}

module _ {V : Type 0} {rt : Runtime V} (rc : Receiving rt) ⦃w : Writer V⦄ ⦃c : Codec ServerMessage⦄
    ⦃h : StdHash⦄ (e : ApplicationError) (f : Forwarder rt.Receiver V) (channel : rt.Sender)
    (cache : MessageCache) where
  pub poll-finished :
      f.wait ≡ finished (err e) → (poll rc f channel cache).0.wait ≡ finished (err e)
  unfolding poll poll_at
  poll-finished h = rw h refl

  pub poll-failed :
      (frame_bytes : Bytes)
      → f.wait ≡ writing frame_bytes
      → (write_frame (ok frame_bytes) f.writer).0 ≡ err e
      → (poll rc f channel cache).0.wait ≡ finished (err e)
  unfolding poll poll_at
  poll-failed frame_bytes h fails = rw h (ap go_on fails)
