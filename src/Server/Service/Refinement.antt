-- ===== src/Server/Service/Refinement.antt =====
-- The server's loop with counted handlers, as an abstraction of the loop with the handlers
-- themselves.
use simple_chat_ddn.Common.{
  ℕ, zero, suc, ◌+◌, ◌≡◌, refl, sym, ap, ◌∙◌, Bool, true, false, Option, none, some, List, [], ◌∷◌,
  arith, if◌then◌else◌,
}
use simple_chat_ddn.Common.Text.{Text}
use simple_chat_ddn.Core.Bincode.{Codec}
use simple_chat_ddn.Core.Stream.{Reader, Writer}
use simple_chat_ddn.Core.Message.Client.{ClientMessage}
use simple_chat_ddn.Core.Message.Server.{ServerMessage}
use simple_chat_ddn.Server.Runtime.{Runtime}
use simple_chat_ddn.Server.Pool.{BroadcastPool}
use simple_chat_ddn.Server.Session.{Session}
use simple_chat_ddn.Server.Run
use simple_chat_ddn.Server.Run.{ChatServer, Listener, finish}
use simple_chat_ddn.Server.Service.{
  Stage, listening, acquiring, closing_down, returned, Event, shutdown_signal, accept_error,
  connection, turn, Service, acquire, resume, with_pool, closing, turned, turn_nth, on_event, step,
}
use simple_chat_ddn.Server.Service.Permits.{running, running-accept, turn_nth-running}

module _ {R W : Type 0} where
  unfoldable pub phase_of : Stage R W → Run.Phase
  phase_of listening = Run.listening
  phase_of (acquiring reader writer) = Run.acquiring
  phase_of closing_down = Run.closing_down
  phase_of returned = Run.returned

-- The event of the view when a turn ends with or without the handler's return.
unfoldable pub finished : Bool → List Run.Event
finished true = finish ∷ []
finished false = []

module _ {W : Type 0} {rt : Runtime W} where
  -- Views that differ in their counts, which are equal.
  counted :
      (server : ChatServer rt) (ph : Run.Phase) (p : ℕ) {a b : ℕ}
      → a ≡ b
      → ◌≡◌ {A = Listener rt}
          (record { server = server; phase = ph; permits = p; handlers = a })
          (record { server = server; phase = ph; permits = p; handlers = b })
  counted server ph p e i = record { server = server; phase = ph; permits = p; handlers = e i }

module _ {R W : Type 0} {rt : Runtime W} where
  -- The handlers are only counted.
  unfoldable pub view : Service R rt → Listener rt
  unfolding phase_of
  view s = record {
    server = s.server;
    phase = phase_of s.stage;
    permits = s.permits;
    handlers = running s.handlers;
  }

  -- The view of the loop never changes the pool but at the shutdown; the handlers do.
  unfoldable pub with_server_of : Service R rt → Listener rt → Listener rt
  with_server_of s x = record x { server = s.server }

  view-acquire :
      (r : R) (w : W) (n : ℕ) (s : Service R rt)
      → view (acquire r w n s) ≡ with_server_of (acquire r w n s) (Run.acquire n (view s))
  unfolding view acquire Run.acquire with_server_of phase_of
  view-acquire r w zero s = refl
  view-acquire r w (suc n) s = counted s.server Run.listening n (running-accept s.handlers r w)

  module _ (server : ChatServer rt) (p : ℕ) (ts ts' : List (Session R W))
      (pool : BroadcastPool rt) where
    abbrev at : Stage R W → Service R rt
    at g = record { server = server; stage = g; permits = p; handlers = ts }

    -- The view when a handler returns.
    view-resume :
        (g : Stage R W) (n : ℕ)
        → running ts ≡ n
        → suc (running ts') ≡ n
        → view (turned (true, ts', pool) (at g))
          ≡ with_server_of
              (turned (true, ts', pool) (at g))
              (Run.resume (phase_of g) (Run.release n (view (at g))))
    unfolding turned resume with_pool Run.resume Run.release view phase_of with_server_of
    view-resume g zero e f = absurd (omega arith)
    view-resume listening (suc n) e f = counted _ Run.listening (suc p) (omega arith)
    view-resume (acquiring r w) (suc n) e f = counted _ Run.listening p (running-accept ts' r w ∙ f)
    view-resume closing_down (suc n) e f = counted _ Run.closing_down (suc p) (omega arith)
    view-resume returned (suc n) e f = counted _ Run.returned (suc p) (omega arith)

  finish_lem :
      (blocks : Text → Bool) (g : Stage R W) (x : Listener rt)
      → Run.on_event blocks (phase_of g) finish x
        ≡ Run.resume (phase_of g) (Run.release x.handlers x)
  unfolding Run.on_event phase_of
  finish_lem blocks listening x = refl
  finish_lem blocks (acquiring r w) x = refl
  finish_lem blocks closing_down x = refl
  finish_lem blocks returned x = refl

  view-turned :
      (blocks : Text → Bool) (x : Bool × List (Session R W) × BroadcastPool rt) (s : Service R rt)
      → (if x.0 then 1 else 0) + running x.1 ≡ running s.handlers
      → view (turned x s) ≡ with_server_of (turned x s) (Run.run blocks (finished x.0) (view s))
  unfolding finished Run.run Run.step view turned with_pool with_server_of
  view-turned blocks (false, ts, pool) s e = counted _ (phase_of s.stage) s.permits (omega arith)
  view-turned blocks (true, ts, pool) s e =
      view-resume s.server s.permits s.handlers ts pool s.stage (running s.handlers) refl
        (omega arith)
      ∙ ap (with_server_of (turned (true, ts, pool) s)) (sym (finish_lem blocks s.stage (view s)))

  view-closing :
      (s : Service R rt) (o : Option (BroadcastPool rt))
      → view (closing s o) ≡ with_server_of (closing s o) (Run.closing (view s) o)
  unfolding view closing with_pool Run.closing with_server_of phase_of
  view-closing s none = refl
  view-closing s (some pool) = refl

  module _ ⦃r : Reader R⦄ ⦃w : Writer W⦄ ⦃cc : Codec ClientMessage⦄ ⦃cs : Codec ServerMessage⦄ where
    -- What the view meets.
    pub shadow : Service R rt → Event R W → List Run.Event
    shadow s shutdown_signal = Run.shutdown_signal ∷ []
    shadow s (connection reader writer) = Run.connection ∷ []
    shadow s accept_error = Run.accept_error ∷ []
    shadow s (turn n) = finished (turn_nth s.server.cache n s.handlers s.server.broadcast_pool).0

    turn_view :
        (blocks : Text → Bool) (s : Service R rt) (n : ℕ)
        → let x = turn_nth s.server.cache n s.handlers s.server.broadcast_pool in
          view (turned x s) ≡ with_server_of (turned x s) (Run.run blocks (finished x.0) (view s))
    turn_view blocks s n =
        view-turned blocks _ s
          (turn_nth-running s.server.cache n s.handlers s.server.broadcast_pool)

    on_event-view :
        (blocks : Text → Bool) (server : ChatServer rt) (g : Stage R W) (p : ℕ)
        (ts : List (Session R W)) (e : Event R W)
        → let s : Service R rt = record {
          server = server;
          stage = g;
          permits = p;
          handlers = ts;
        } in
          view (on_event blocks g e s)
          ≡ with_server_of (on_event blocks g e s) (Run.run blocks (shadow s e) (view s))
    unfolding on_event shadow Run.run Run.step Run.on_event view with_server_of phase_of
    on_event-view blocks server listening p ts shutdown_signal =
        view-closing (record { server = server; stage = listening; permits = p; handlers = ts }) _
    on_event-view blocks server listening p ts (connection x y) =
        view-acquire x y p
          (record { server = server; stage = listening; permits = p; handlers = ts })
    on_event-view blocks server listening p ts accept_error = refl
    on_event-view blocks server (acquiring x y) p ts shutdown_signal = refl
    on_event-view blocks server (acquiring x y) p ts (connection _ _) = refl
    on_event-view blocks server (acquiring x y) p ts accept_error = refl
    on_event-view blocks server closing_down p ts shutdown_signal = refl
    on_event-view blocks server closing_down p ts (connection _ _) = refl
    on_event-view blocks server closing_down p ts accept_error = refl
    on_event-view blocks server returned p ts shutdown_signal = refl
    on_event-view blocks server returned p ts (connection _ _) = refl
    on_event-view blocks server returned p ts accept_error = refl
    on_event-view blocks server listening p ts (turn n) =
        turn_view blocks (record { server = server; stage = listening; permits = p; handlers = ts })
          n
    on_event-view blocks server (acquiring x y) p ts (turn n) =
        turn_view blocks
          (record { server = server; stage = acquiring x y; permits = p; handlers = ts }) n
    on_event-view blocks server closing_down p ts (turn n) =
        turn_view blocks
          (record { server = server; stage = closing_down; permits = p; handlers = ts }) n
    on_event-view blocks server returned p ts (turn n) =
        turn_view blocks (record { server = server; stage = returned; permits = p; handlers = ts })
          n

    -- The loop with its handlers refines the loop that only counts them: a step of the former, seen
    -- without what the handlers hold and with the server as the step leaves it, is the step of the
    -- latter for the same event, where a turn of a handler is a `finish` if the handler returns in
    -- it, and nothing if it does not.
    pub view-step :
        (blocks : Text → Bool) (e : Event R W) (s : Service R rt)
        → view (step blocks e s)
          ≡ with_server_of (step blocks e s) (Run.run blocks (shadow s e) (view s))
    unfolding step
    view-step blocks e s = on_event-view blocks s.server s.stage s.permits s.handlers e
