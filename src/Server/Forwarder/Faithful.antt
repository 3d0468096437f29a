-- ===== src/Server/Forwarder/Faithful.antt =====
-- Wherever a task waits, and whatever the others do to the cache at its waits, what it has sent is
-- what it has received.
use simple_chat_ddn.Common.{
  ◌≤◌, ◌≡◌, refl, ok, err, List, [], ◌∷◌, ◌++◌, length, length-append, arith,
}
use simple_chat_ddn.Common.Text.{Bytes}
use simple_chat_ddn.Core.Bincode.{Codec}
use simple_chat_ddn.Core.Message.Server.{ServerMessage, SharedServerMessage}
use simple_chat_ddn.Core.MessageCache.{StdHash}
use simple_chat_ddn.Core.Protocol.{frame}
use simple_chat_ddn.Core.Protocol.Cached.{Agrees}
use simple_chat_ddn.Server.Dispatcher.{Dispatcher, shared_codec, good_bye}
use simple_chat_ddn.Server.Runtime.{Runtime, IsRuntime}
use simple_chat_ddn.Server.Forwarder.{
  Forwarder, Wait, starting, receiving, fetching, storing, writing, finished, begin,
}
use simple_chat_ddn.Server.Forwarder.Progress.{Progressed, Progressed-append}

module _ {W : Type 0} {rt : Runtime W} (l : IsRuntime rt) (sent : W → Bytes)
    ⦃codec : Codec ServerMessage⦄ ⦃h : StdHash⦄ where
  -- The task of the dispatcher `d`, with its receiver at `to` and what it has sent.
  abbrev pub Progress :
      List SharedServerMessage
      → Dispatcher rt.Receiver W
      → rt.Receiver
      → W
      → List SharedServerMessage
      → Type 0
  Progress log d x s pending =
      Progressed log (l.start d.rec) (l.start x) d.channel_owner (sent d.writer) (sent s) pending

  -- Before its first turn nothing is sent. Then all but the message at hand is, which is the one
  -- that the hash, or the frame, is of. Of a task that failed nothing is said.
  abbrev pub At :
      List SharedServerMessage → Dispatcher rt.Receiver W → rt.Receiver → W → Wait → Type 0
  At log d x s starting = (l.start x ≡ l.start d.rec) × (sent s ≡ sent d.writer)
  At log d x s receiving = Progress log d x s []
  At log d x s (fetching m hash) =
      (p : Bytes) × (codec.encode_to_vec m.shared ≡ ok p)
      × (h.hash_bytes p ≡ hash)
      × Progress log d x s (m ∷ [])
  At log d x s (storing hash f) =
      (m : SharedServerMessage) × (p : Bytes) × (codec.encode_to_vec m.shared ≡ ok p)
      × (h.hash_bytes p ≡ hash)
      × (f ≡ frame p)
      × Progress log d x s (m ∷ [])
  At log d x s (writing f) =
      (m : SharedServerMessage) × (p : Bytes) × (codec.encode_to_vec m.shared ≡ ok p)
      × Agrees m p (ok f)
      × Progress log d x s (m ∷ [])
  At log d x s (finished (ok _)) =
      (s₀ : W) × (q : Bytes) × (codec.encode_to_vec (good_bye d.channel_owner) ≡ ok q)
      × (sent s ≡ sent s₀ ++ frame q)
      × Progress log d x s₀ []
  At log d x s (finished (err e)) = Unit {0}

  pub record IsFaithful (log : List SharedServerMessage) (d : Dispatcher rt.Receiver W)
      (f : Forwarder rt.Receiver W) : Type 0 where
    pub owner : f.channel_owner ≡ d.channel_owner
    pub after : l.start d.rec ≤ l.start f.rec
    pub within : l.start f.rec ≤ length log
    pub at : At log d f.rec f.writer f.wait

  pub begin-IsFaithful :
      (log : List SharedServerMessage) (d : Dispatcher rt.Receiver W)
      → l.start d.rec ≤ length log
      → IsFaithful log d (begin d)
  unfolding begin
  begin-IsFaithful log d k = record {
    owner = refl;
    after = omega arith;
    within = k;
    at = (refl, refl);
  }

  At-append :
      (log more : List SharedServerMessage) (d : Dispatcher rt.Receiver W) (x : rt.Receiver) (s : W)
      (t : Wait)
      → l.start x ≤ length log
      → At log d x s t
      → At (log ++ more) d x s t
  At-append log more d x s starting k a = a
  At-append log more d x s receiving k a = Progressed-append more k a
  At-append log more d x s (fetching m hash) k (p, e, same, a) =
      (p, e, same, Progressed-append more k a)
  At-append log more d x s (storing hash f) k (m, p, e, same, fp, a) =
      (m, p, e, same, fp, Progressed-append more k a)
  At-append log more d x s (writing f) k (m, p, e, agrees, a) =
      (m, p, e, agrees, Progressed-append more k a)
  At-append log more d x s (finished (ok _)) k (s₀, q, e, out, a) =
      (s₀, q, e, out, Progressed-append more k a)
  At-append log more d x s (finished (err e)) k a = a

  -- What the others send afterwards does not matter.
  pub IsFaithful-append :
      (log more : List SharedServerMessage) (d : Dispatcher rt.Receiver W)
      (f : Forwarder rt.Receiver W)
      → IsFaithful log d f
      → IsFaithful (log ++ more) d f
  IsFaithful-append log more d f v = record {
    owner = v.owner;
    after = v.after;
    within = omega (arith, v.within, length-append log more);
    at = At-append log more d f.rec f.writer f.wait v.within v.at;
  }
