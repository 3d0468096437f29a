-- ===== src/Server/Service/Channel.antt =====
-- What a step does to the channel and to the cache.
use simple_chat_ddn.Common.{
  Option, none, ℕ, zero, suc, ◌≡◌, refl, sym, ap, ◌∙◌, List, ◌++◌, some, Bool, true, false,
}
use simple_chat_ddn.Common.Text.{Text}
use simple_chat_ddn.Core.Bincode.{Codec}
use simple_chat_ddn.Core.Stream.{Reader, Writer}
use simple_chat_ddn.Core.Message.Client.{ClientMessage}
use simple_chat_ddn.Core.Message.Server.{ServerMessage}
use simple_chat_ddn.Server.Runtime.{Runtime, IsRuntime}
use simple_chat_ddn.Server.Pool.{BroadcastPool}
use simple_chat_ddn.Server.Session.{Session}
use simple_chat_ddn.Server.Service.{
  Stage, listening, acquiring, closing_down, returned, Event, shutdown_signal, accept_error,
  connection, turn, Service, acquire, resume, with_pool, turned, on_event, step, closing,
}
use simple_chat_ddn.Server.Service.Stages.{IsNoSignal}
use simple_chat_ddn.Server.Pool.Shutdown.{shutdown-broadcaster}
use simple_chat_ddn.Server.Pool.Channel.{carried, calls-carried}
use simple_chat_ddn.Server.Service.Trace.{event_calls, step-pool}
use mathlib.Core.List.{append-nil}

module _ {R W : Type 0} {rt : Runtime W} where
  abbrev pub channel_of : Service R rt → rt.Sender
  channel_of s = s.server.broadcast_pool.broadcaster

  closing-channel :
      (s : Service R rt) (o : Option (BroadcastPool rt))
      → ((p : BroadcastPool rt) → o ≡ some p → p.broadcaster ≡ channel_of s)
      → channel_of (closing s o) ≡ channel_of s
  unfolding closing with_pool
  closing-channel s none h = refl
  closing-channel s (some p) h = h p refl

  closing-cache :
      (s : Service R rt) (o : Option (BroadcastPool rt))
      → (closing s o).server.cache ≡ s.server.cache
  unfolding closing with_pool
  closing-cache s none = refl
  closing-cache s (some p) = refl

  acquire-cache :
      (x : R) (y : W) (n : ℕ) (s : Service R rt) → (acquire x y n s).server.cache ≡ s.server.cache
  unfolding acquire
  acquire-cache x y zero s = refl
  acquire-cache x y (suc n) s = refl

  resume-cache : (g : Stage R W) (s : Service R rt) → (resume g s).server.cache ≡ s.server.cache
  unfolding resume
  resume-cache listening s = refl
  resume-cache (acquiring x y) s = acquire-cache x y s.permits s
  resume-cache closing_down s = refl
  resume-cache returned s = refl

  turned-cache :
      (x : Bool × List (Session R W) × BroadcastPool rt) (s : Service R rt)
      → (turned x s).server.cache ≡ s.server.cache
  unfolding turned with_pool
  turned-cache (false, ts, pool) s = refl
  turned-cache (true, ts, pool) s = resume-cache s.stage _

  module _ ⦃r : Reader R⦄ ⦃w : Writer W⦄ ⦃cc : Codec ClientMessage⦄ ⦃cs : Codec ServerMessage⦄
      (blocks : Text → Bool) where
    on_event-cache :
        (g : Stage R W) (e : Event R W) (s : Service R rt)
        → (on_event blocks g e s).server.cache ≡ s.server.cache
    unfolding on_event
    on_event-cache listening shutdown_signal s = closing-cache s _
    on_event-cache listening (connection x y) s = acquire-cache x y s.permits s
    on_event-cache listening accept_error s = refl
    on_event-cache listening (turn n) s = turned-cache _ s
    on_event-cache (acquiring x y) shutdown_signal s = refl
    on_event-cache (acquiring x y) (connection _ _) s = refl
    on_event-cache (acquiring x y) accept_error s = refl
    on_event-cache (acquiring x y) (turn n) s = turned-cache _ s
    on_event-cache closing_down shutdown_signal s = refl
    on_event-cache closing_down (connection _ _) s = refl
    on_event-cache closing_down accept_error s = refl
    on_event-cache closing_down (turn n) s = turned-cache _ s
    on_event-cache returned shutdown_signal s = refl
    on_event-cache returned (connection _ _) s = refl
    on_event-cache returned accept_error s = refl
    on_event-cache returned (turn n) s = turned-cache _ s

    -- The loop and the handlers leave the cache alone.
    pub step-cache :
        (e : Event R W) (s : Service R rt) → (step blocks e s).server.cache ≡ s.server.cache
    unfolding step
    step-cache e s = on_event-cache s.stage e s

    signal-channel :
        (g : Stage R W) (s : Service R rt)
        → channel_of (on_event blocks g shutdown_signal s) ≡ channel_of s
    unfolding on_event
    signal-channel listening s =
        closing-channel s _ (λ p e. shutdown-broadcaster blocks s.server.broadcast_pool p e)
    signal-channel (acquiring x y) s = refl
    signal-channel closing_down s = refl
    signal-channel returned s = refl

    module _ (l : IsRuntime rt) where
      quiet-channel :
          (e : Event R W) (s : Service R rt)
          → IsNoSignal e
          → l.sent (channel_of (step blocks e s))
            ≡ l.sent (channel_of s) ++ carried (event_calls e s) s.server.broadcast_pool
      quiet-channel e s h =
          ap (λ p. l.sent p.broadcaster) (step-pool blocks e s h)
          ∙ calls-carried l (event_calls e s) s.server.broadcast_pool

      -- A step adds to the channel what its calls of the pool do.
      pub step-channel :
          (e : Event R W) (s : Service R rt)
          → l.sent (channel_of (step blocks e s))
            ≡ l.sent (channel_of s) ++ carried (event_calls e s) s.server.broadcast_pool
      unfolding step event_calls carried
      step-channel shutdown_signal s =
          ap l.sent (signal-channel s.stage s) ∙ sym (append-nil (l.sent (channel_of s)))
      step-channel accept_error s = quiet-channel accept_error s tt
      step-channel (connection x y) s = quiet-channel (connection x y) s tt
      step-channel (turn n) s = quiet-channel (turn n) s tt
