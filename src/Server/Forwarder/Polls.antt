-- ===== src/Server/Forwarder/Polls.antt =====
-- One turn of a task keeps what it has sent faithful, and the cache sound.
use simple_chat_ddn.Common.{◌≡◌, refl, Result, ok, err, Option, none, some, get_elem?-lt, arith}
use simple_chat_ddn.Common.Text.{Bytes}
use simple_chat_ddn.Core.Bincode.{Codec}
use simple_chat_ddn.Core.Stream.{Writer, IsWriter}
use simple_chat_ddn.Core.Message.Server.{ServerMessage, SharedServerMessage}
use simple_chat_ddn.Core.MessageCache.{StdHash, IsStdHash, MessageCache}
use simple_chat_ddn.Server.Dispatcher.{Dispatcher, shared_codec}
use simple_chat_ddn.Server.Dispatcher.Delivery.{IsSound}
use simple_chat_ddn.Server.Runtime.{Runtime, IsRuntime}
use simple_chat_ddn.Server.Forwarder.{
  Forwarder, Wait, starting, receiving, fetching, storing, writing, finished, got, RecvError,
  lagged, closed, Receiving, IsReceiving, poll_at, poll,
}
use simple_chat_ddn.Server.Forwarder.Progress.{Progressed-skip}
use simple_chat_ddn.Server.Forwarder.Faithful.{At, IsFaithful}
use simple_chat_ddn.Server.Forwarder.Turns.{
  starting-At, writing-At, closed-At, fetching-At, storing-At, storing-IsSound, received-At,
}

module _ {W : Type 0} {rt : Runtime W} (l : IsRuntime rt) {rc : Receiving rt}
    (lr : IsReceiving l rc) {sent : W → Bytes} ⦃codec : Codec ServerMessage⦄ ⦃w : Writer W⦄
    ⦃h : StdHash⦄ (lw : IsWriter w sent) (lh : IsStdHash h) where
  module _ (c : rt.Sender) (d : Dispatcher rt.Receiver W) (f : Forwarder rt.Receiver W)
      (v : IsFaithful l sent (l.sent c) d f) where
    -- The task goes on with its receiver where it is.
    stays :
        (s : W) (t : Wait)
        → At l sent (l.sent c) d f.rec s t
        → IsFaithful l sent (l.sent c) d (record f { writer = s; wait = t })
    stays s t a = record { owner = v.owner; after = v.after; within = v.within; at = a }

    got-IsFaithful :
        (o : Option (Result RecvError SharedServerMessage))
        → (rc.recv f.rec c).0 ≡ o
        → At l sent (l.sent c) d f.rec f.writer receiving
        → IsFaithful l sent (l.sent c) d (got o (record f { rec = (rc.recv f.rec c).1 }))
    unfolding got
    got-IsFaithful none e a =
        let same = lr.recv_none f.rec c e in
        record {
          owner = v.owner;
          after = omega (arith, v.after, same);
          within = omega (arith, v.within, same);
          at = rw same a;
        }
    got-IsFaithful (some (err (lagged n))) e a =
        let (next, within, lags) = lr.recv_lagged f.rec c e in
        record {
          owner = v.owner;
          after = omega (arith, v.after, next);
          within = within;
          at = rw next (Progressed-skip n v.after v.within (omega (arith, v.after, lags)) a);
        }
    got-IsFaithful (some (err closed)) e a =
        let same = lr.recv_closed f.rec c e in
        record {
          owner = v.owner;
          after = omega (arith, v.after, same);
          within = omega (arith, v.within, same);
          at =
              rw v.owner
                (closed-At l lw (l.sent c) d (rc.recv f.rec c).1 f.writer _ refl (rw same a));
        }
    got-IsFaithful (some (ok m)) e a =
        let (here, next) = lr.recv_ok f.rec c e in
        record {
          owner = v.owner;
          after = omega (arith, v.after, next);
          within = omega (arith, next, get_elem?-lt (l.start f.rec) (l.sent c) m here);
          at = rw v.owner (
              received-At l lw (l.sent c) d m f.rec (rc.recv f.rec c).1 f.writer v.after here next
                a);
        }

    poll_at-IsFaithful :
        (t : Wait) (cache : MessageCache)
        → IsSound cache
        → At l sent (l.sent c) d f.rec f.writer t
        → IsFaithful l sent (l.sent c) d (poll_at rc t f c cache).0
          × IsSound (poll_at rc t f c cache).1
    unfolding poll_at
    poll_at-IsFaithful starting cache sound a =
        (stays _ _ (rw v.owner (starting-At l lw (l.sent c) d f.rec f.writer _ refl a)), sound)
    poll_at-IsFaithful receiving cache sound a = (got-IsFaithful _ refl a, sound)
    poll_at-IsFaithful (fetching m hash) cache sound a = (
      stays _ _ (fetching-At l lw (l.sent c) d f.rec m hash f.writer _ (λ b. sound.1 hash b) a),
      sound,
    )
    poll_at-IsFaithful (storing hash b) cache sound a = (
      stays _ _ (storing-At l lw (l.sent c) d f.rec hash b f.writer a),
      storing-IsSound l lw lh (l.sent c) d f.rec f.writer hash b cache sound a,
    )
    poll_at-IsFaithful (writing b) cache sound a =
        (stays _ _ (writing-At l lw (l.sent c) d f.rec b f.writer _ refl a), sound)
    poll_at-IsFaithful (finished r) cache sound a = (stays _ _ a, sound)

  -- A turn of a task, wherever it waits, whatever it receives and whatever the others have done to
  -- the cache: the task stays faithful, and the cache sound.
  pub poll-IsFaithful :
      (c : rt.Sender) (d : Dispatcher rt.Receiver W) (f : Forwarder rt.Receiver W)
      (cache : MessageCache)
      → IsSound cache
      → IsFaithful l sent (l.sent c) d f
      → IsFaithful l sent (l.sent c) d (poll rc f c cache).0 × IsSound (poll rc f c cache).1
  unfolding poll
  poll-IsFaithful c d f cache sound v = poll_at-IsFaithful c d f v f.wait cache sound v.at
