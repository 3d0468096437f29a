-- ===== src/Server/Service/Hangup.antt =====
-- What clients do to the server that hang up before they have joined.
use simple_chat_ddn.Common.{
  ℕ, zero, suc, ◌≡◌, refl, sym, ap, ◌∙◌, subst, Bool, true, false, not, List, [], ◌∷◌, ◌++◌, All,
  length, map,
}
use mathlib.Core.List.{append_assoc, append-nil}
use simple_chat_ddn.Common.Text.{Text, Bytes}
use simple_chat_ddn.Core.Bincode.{Codec}
use simple_chat_ddn.Core.Stream.{Reader, Writer, IsReader, IsPrompt}
use simple_chat_ddn.Core.Message.Client.{ClientMessage}
use simple_chat_ddn.Core.Message.Server.{ServerMessage}
use simple_chat_ddn.Core.MessageCache.{MessageCache}
use simple_chat_ddn.Server.Runtime.{Runtime}
use simple_chat_ddn.Server.Pool.{BroadcastPool}
use simple_chat_ddn.Server.Session.{
  Session, joining, registering, announcing, chatting, leaving, finishing, ended, accept,
  session_step,
}
use simple_chat_ddn.Server.Session.Joining.{Waits, step-Waits}
use simple_chat_ddn.Server.Run.{ChatServer}
use simple_chat_ddn.Server.Service.{
  Stage, listening, acquiring, closing_down, returned, Event, shutdown_signal, accept_error,
  connection, turn, Service, is_running, start, acquire, with_pool, turned, turn_nth, on_event,
  step, run,
}
use simple_chat_ddn.Server.Service.Permits.{IsAcquiring}

module _ {R W : Type 0} (pending : R → Bytes) where
  -- A handler that has returned, or that waits for a name on a stream that has ended.
  abbrev pub IsStuck : Session R W → Type 0
  IsStuck (ended result) = Unit {0}
  IsStuck (joining reader writer buffer) = pending reader ≡ []
  IsStuck (registering reader writer buffer u) = ⊥
  IsStuck (announcing reader buffer u) = ⊥
  IsStuck (chatting reader buffer u) = ⊥
  IsStuck (leaving other u) = ⊥
  IsStuck (finishing u) = ⊥

module _ {R W : Type 0} where
  still-Stuck :
      (pending : R → Bytes) (s : Session R W)
      → Waits pending s
      → IsStuck pending s × (is_running s ≡ true)
  unfolding is_running
  still-Stuck pending (joining reader writer buffer) h = (h, refl)
  still-Stuck pending (registering reader writer buffer u) h = absurd h
  still-Stuck pending (announcing reader buffer u) h = absurd h
  still-Stuck pending (chatting reader buffer u) h = absurd h
  still-Stuck pending (leaving other u) h = absurd h
  still-Stuck pending (finishing u) h = absurd h
  still-Stuck pending (ended result) h = absurd h

module _ {R W : Type 0} {rt : Runtime W} (pending : R → Bytes) where
  -- The loop waits for a permit, and every handler is stuck.
  abbrev pub IsHeld : Service R rt → Type 0
  IsHeld s = IsAcquiring s.stage × All (IsStuck pending) s.handlers

  -- The same, after a step that leaves the loop and the server as they were.
  abbrev IsHeldStill : Service R rt → Service R rt → Type 0
  IsHeldStill s s' = IsHeld s' × (s'.stage ≡ s.stage) × (s'.server ≡ s.server)

  turned-IsHeld :
      (x : Bool × List (Session R W) × BroadcastPool rt) (s : Service R rt)
      → x.0 ≡ false
      → All (IsStuck pending) x.1
      → x.2 ≡ s.server.broadcast_pool
      → IsAcquiring s.stage
      → IsHeldStill s (turned x s)
  unfolding turned with_pool
  turned-IsHeld (true, ts, pool) s e h same a = absurd (cc (e))
  turned-IsHeld (false, ts, pool) s e h same a =
      ((a, h), refl, ap (λ p. record s.server { broadcast_pool = p }) same)

module _ {R W : Type 0} {rt : Runtime W} ⦃r : Reader R⦄ ⦃w : Writer W⦄ ⦃cc : Codec ClientMessage⦄
    ⦃cs : Codec ServerMessage⦄ {pending : R → Bytes} (l : IsReader r pending)
    (prompt : IsPrompt r pending) where
  -- A turn of a stuck handler changes nothing that matters, and does not end it.
  turn_nth-Stuck :
      (c : MessageCache) (n : ℕ) (ts : List (Session R W)) (pool : BroadcastPool rt)
      → All (IsStuck pending) ts
      → ((turn_nth c n ts pool).0 ≡ false)
        × All (IsStuck pending) (turn_nth c n ts pool).1
        × ((turn_nth c n ts pool).2 ≡ pool)
  unfolding turn_nth is_running
  turn_nth-Stuck c n [] pool h = (refl, tt, refl)
  turn_nth-Stuck c zero (ended result ∷ ts) pool h = unfold session_step in (refl, h, refl)
  turn_nth-Stuck c zero (joining x y b ∷ ts) pool h =
      let (waits, same) = step-Waits l prompt c (joining x y b) pool h.0 in
      let (stuck, runs) = still-Stuck pending _ waits in (ap not runs, (stuck, h.1), same)
  turn_nth-Stuck c zero (registering x y b u ∷ ts) pool h = absurd h.0
  turn_nth-Stuck c zero (announcing x b u ∷ ts) pool h = absurd h.0
  turn_nth-Stuck c zero (chatting x b u ∷ ts) pool h = absurd h.0
  turn_nth-Stuck c zero (leaving o u ∷ ts) pool h = absurd h.0
  turn_nth-Stuck c zero (finishing u ∷ ts) pool h = absurd h.0
  turn_nth-Stuck c (suc n) (t ∷ ts) pool h =
      let (over, stuck, same) = turn_nth-Stuck c n ts pool h.1 in (over, (h.0, stuck), same)

  turn-IsHeld :
      (n : ℕ) (s : Service R rt)
      → IsHeld pending s
      → IsHeldStill pending s
          (turned (turn_nth s.server.cache n s.handlers s.server.broadcast_pool) s)
  turn-IsHeld n s h =
      let (over, stuck, same) =
        turn_nth-Stuck s.server.cache n s.handlers s.server.broadcast_pool h.1 in
      turned-IsHeld pending _ s over stuck same h.0

  on_event-IsHeld :
      (blocks : Text → Bool) (g : Stage R W) (e : Event R W) (s : Service R rt)
      → s.stage ≡ g
      → IsHeld pending s
      → IsHeldStill pending s (on_event blocks g e s)
  unfolding on_event
  on_event-IsHeld blocks listening e s x h = absurd (subst IsAcquiring x h.0)
  on_event-IsHeld blocks closing_down e s x h = absurd (subst IsAcquiring x h.0)
  on_event-IsHeld blocks returned e s x h = absurd (subst IsAcquiring x h.0)
  on_event-IsHeld blocks (acquiring x y) (turn n) s e h = turn-IsHeld n s h
  on_event-IsHeld blocks (acquiring x y) shutdown_signal s e h = (h, refl, refl)
  on_event-IsHeld blocks (acquiring x y) accept_error s e h = (h, refl, refl)
  on_event-IsHeld blocks (acquiring x y) (connection _ _) s e h = (h, refl, refl)

  run_held :
      (blocks : Text → Bool) (es : List (Event R W)) (s : Service R rt)
      → IsHeld pending s
      → IsHeldStill pending s (run blocks es s)
  unfolding run step
  run_held blocks [] s h = (h, refl, refl)
  run_held blocks (e ∷ es) s h =
      let (h', stage, server) = on_event-IsHeld blocks s.stage e s refl h in
      let (h'', stage', server') = run_held blocks es (on_event blocks s.stage e s) h' in
      (h'', stage' ∙ stage, server' ∙ server)

module _ {R W : Type 0} where
  unfoldable pub connect : R × W → Event R W
  connect (reader, writer) = connection reader writer

  unfoldable pub handler_of : R × W → Session R W
  handler_of (reader, writer) = accept reader writer

  handler_of-Stuck :
      (pending : R → Bytes) (cs : List (R × W))
      → All (λ c. pending c.0 ≡ []) cs
      → All (IsStuck pending) (map handler_of cs)
  unfolding handler_of accept
  handler_of-Stuck pending [] h = tt
  handler_of-Stuck pending (c ∷ cs) h = (h.0, handler_of-Stuck pending cs h.1)

module _ {R W : Type 0} {rt : Runtime W} ⦃r : Reader R⦄ ⦃w : Writer W⦄ ⦃cc : Codec ClientMessage⦄
    ⦃cs : Codec ServerMessage⦄ (blocks : Text → Bool) (server : ChatServer rt) where
  abbrev waiting : ℕ → List (Session R W) → Service R rt
  waiting n ts = record { server = server; stage = listening; permits = n; handlers = ts }

  -- While permits are free, each connection takes one.
  connect_all :
      (cs : List (R × W)) (es : List (Event R W)) (ts : List (Session R W))
      → run blocks (map connect cs ++ es) (waiting (length cs) ts)
        ≡ run blocks es (waiting 0 (ts ++ map handler_of cs))
  unfolding run step on_event acquire connect handler_of
  connect_all [] es ts = ap (λ x. run blocks es (waiting 0 x)) (sym (append-nil ts))
  connect_all (c ∷ cs) es ts =
      connect_all cs es (ts ++ accept c.0 c.1 ∷ [])
      ∙ ap (λ x. run blocks es (waiting 0 x))
          (append_assoc ts (accept c.0 c.1 ∷ []) (map handler_of cs))

module _ {R W : Type 0} {rt : Runtime W} ⦃r : Reader R⦄ ⦃w : Writer W⦄ ⦃cc : Codec ClientMessage⦄
    ⦃cs : Codec ServerMessage⦄ {pending : R → Bytes} (l : IsReader r pending)
    (prompt : IsPrompt r pending) where
  -- As many clients as there are permits can stop the server: if `max_connections` clients connect
  -- and hang up before they join, and one more connects, then whatever comes after, turns of the
  -- handlers, connections and the shutdown signal included, the loop waits for a permit for that
  -- one, and the server is as it was. The streams that have ended go on to report it.
  pub run-connect_hung_up :
      (blocks : Text → Bool) (server : ChatServer rt) (cs : List (R × W)) (x : R) (y : W)
      (es : List (Event R W))
      → length cs ≡ server.max_connections
      → All (λ c. pending c.0 ≡ []) cs
      → let s = run blocks (map connect cs ++ connection x y ∷ es) (start server) in
        (s.stage ≡ acquiring x y) × (s.server ≡ server)
  unfolding start run step on_event acquire
  run-connect_hung_up blocks server cs x y es e h =
      let stalled : Service R rt = record {
        server = server;
        stage = acquiring x y;
        permits = 0;
        handlers = map handler_of cs;
      } in
      let held = run_held l prompt blocks es stalled (tt, handler_of-Stuck pending cs h) in
      let same =
        subst
          (λ n.
            run blocks (map connect cs ++ connection x y ∷ es) (waiting blocks server n [])
            ≡ run blocks es stalled)
          e (connect_all blocks server cs (connection x y ∷ es) []) in
      (ap (λ s. s.stage) same ∙ held.1, ap (λ s. s.server) same ∙ held.2)
