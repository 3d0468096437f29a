-- ===== src/Server/Service/Trace.antt =====
-- What the handlers do to the pool, as calls of its operations.
use simple_chat_ddn.Common.{
  ℕ, zero, suc, ◌≡◌, refl, sym, ap, ◌∙◌, Result, ok, err, List, [], ◌∷◌, ◌++◌, All, some, get_elem?,
  Bool, true, false,
}
use simple_chat_ddn.Common.Text.{Text, Bytes}
use simple_chat_ddn.Core.Error.{ApplicationError}
use simple_chat_ddn.Core.Bincode.{Codec}
use simple_chat_ddn.Core.Stream.{Reader, Writer}
use simple_chat_ddn.Core.Message.Client.{ClientMessage, join, leave, message}
use simple_chat_ddn.Core.Message.Server.{
  ServerMessage, new, new_user_joined, new_user_left, new_message,
}
use simple_chat_ddn.Core.MessageCache.{MessageCache}
use simple_chat_ddn.Core.Transport.{read_message_from_stream}
use simple_chat_ddn.Server.Runtime.{Runtime}
use simple_chat_ddn.Server.Pool.{BroadcastPool, broadcast_message}
use simple_chat_ddn.Server.Pool.Registry.{Call, create, destroy, broadcast, call, calls}
use simple_chat_ddn.Server.Session.{
  Session, joining, registering, announcing, chatting, leaving, finishing, ended, announced,
  announce, announce_left, left, register, chat_with, session_step,
}
use simple_chat_ddn.Server.Service.{
  Stage, listening, acquiring, closing_down, returned, Event, shutdown_signal, accept_error,
  connection, turn, Service, acquire, resume, with_pool, turned, turn_nth, on_event, step, run,
}
use simple_chat_ddn.Server.Service.Stages.{IsNoSignal}

module _ {W : Type 0} where
  -- A round of the chat, by what was read.
  unfoldable pub chat_calls : Result ApplicationError ClientMessage → Text → List (Call W)
  chat_calls (ok (join u)) user = []
  chat_calls (ok (leave other)) user = destroy other ∷ []
  chat_calls (ok (message other content)) user = broadcast (new (new_message other content)) ∷ []
  chat_calls (err e) user = destroy user ∷ []

  module _ {rt : Runtime W} where
    calls-append :
        (cs ds : List (Call W)) (pool : BroadcastPool rt)
        → calls (cs ++ ds) pool ≡ calls ds (calls cs pool)
    unfolding calls
    calls-append [] ds pool = refl
    calls-append (c ∷ cs) ds pool = calls-append cs ds (call c pool)

some_eq {ℓ} : {A : Type ℓ} {a b : A} → some a ≡ some b → a ≡ b
some_eq e = cc e

module _ {R W : Type 0} ⦃r : Reader R⦄ ⦃enc : Codec ClientMessage⦄ (cache : MessageCache) where
  -- A step of a handler.
  unfoldable pub session_calls : Session R W → List (Call W)
  session_calls (joining reader writer buffer) = []
  session_calls (registering reader writer buffer user) = create user writer cache ∷ []
  session_calls (announcing reader buffer user) = broadcast (new (new_user_joined user)) ∷ []
  session_calls (chatting reader buffer user) =
      chat_calls (read_message_from_stream reader buffer).0 user
  session_calls (leaving other user) = broadcast (new (new_user_left other)) ∷ []
  session_calls (finishing user) = destroy user ∷ []
  session_calls (ended result) = []

  unfoldable pub nth_calls : ℕ → List (Session R W) → List (Call W)
  nth_calls n [] = []
  nth_calls zero (t ∷ ts) = session_calls t
  nth_calls (suc n) (t ∷ ts) = nth_calls n ts

  nth-session_calls :
      (n : ℕ) (ts : List (Session R W)) (t : Session R W)
      → get_elem? ts n ≡ some t
      → nth_calls n ts ≡ session_calls t
  unfolding nth_calls
  nth-session_calls n [] t e = absurd (cc (e))
  nth-session_calls zero (s ∷ ts) t e = ap session_calls (some_eq e)
  nth-session_calls (suc n) (s ∷ ts) t e = nth-session_calls n ts t e

module _ {R W : Type 0} {rt : Runtime W} ⦃r : Reader R⦄ ⦃w : Writer W⦄ ⦃cc : Codec ClientMessage⦄
    ⦃cs : Codec ServerMessage⦄ where
  chat_with-calls :
      (m : Result ApplicationError ClientMessage) (reader : R) (buffer : Bytes) (user : Text)
      (pool : BroadcastPool rt)
      → (chat_with m reader buffer user pool).1 ≡ calls (chat_calls m user) pool
  unfolding chat_with announced left broadcast_message chat_calls calls call
  chat_with-calls (ok (join u)) reader buffer user pool = refl
  chat_with-calls (ok (leave other)) reader buffer user pool = refl
  chat_with-calls (ok (message other content)) reader buffer user pool = refl
  chat_with-calls (err e) reader buffer user pool = refl

  session_step-calls :
      (cache : MessageCache) (s : Session R W) (pool : BroadcastPool rt)
      → (session_step cache s pool).1 ≡ calls (session_calls cache s) pool
  unfolding session_step session_calls register announce announce_left left announced
      broadcast_message calls call
  session_step-calls cache (joining reader writer buffer) pool = refl
  session_step-calls cache (registering reader writer buffer user) pool = refl
  session_step-calls cache (chatting reader buffer user) pool = chat_with-calls _ _ _ user pool
  session_step-calls cache (announcing reader buffer user) pool = refl
  session_step-calls cache (leaving other user) pool = refl
  session_step-calls cache (finishing user) pool = refl
  session_step-calls cache (ended result) pool = refl

  turn_nth-calls :
      (cache : MessageCache) (n : ℕ) (ts : List (Session R W)) (pool : BroadcastPool rt)
      → (turn_nth cache n ts pool).2 ≡ calls (nth_calls cache n ts) pool
  unfolding turn_nth nth_calls calls
  turn_nth-calls cache n [] pool = refl
  turn_nth-calls cache zero (t ∷ ts) pool = session_step-calls cache t pool
  turn_nth-calls cache (suc n) (t ∷ ts) pool = turn_nth-calls cache n ts pool

  -- An event of the loop.
  unfoldable pub event_calls : Event R W → Service R rt → List (Call W)
  unfolding nth_calls
  event_calls (turn n) s = nth_calls s.server.cache n s.handlers
  event_calls shutdown_signal s = []
  event_calls accept_error s = []
  event_calls (connection reader writer) s = []

  -- The turn of a handler that registers.
  pub event-register_calls :
      (n : ℕ) (s : Service R rt) (reader : R) (writer : W) (buffer : Bytes) (u : Text)
      → get_elem? s.handlers n ≡ some (registering reader writer buffer u)
      → event_calls (turn n) s ≡ create u writer s.server.cache ∷ []
  unfolding event_calls session_calls
  event-register_calls n s reader writer buffer u e =
      nth-session_calls s.server.cache n s.handlers (registering reader writer buffer u) e

  -- A run of the loop.
  unfoldable pub trace : (Text → Bool) → List (Event R W) → Service R rt → List (Call W)
  unfolding event_calls
  trace blocks [] s = []
  trace blocks (e ∷ es) s = event_calls e s ++ trace blocks es (step blocks e s)

module _ {R W : Type 0} {rt : Runtime W} where
  abbrev pub pool_of : Service R rt → BroadcastPool rt
  pool_of s = s.server.broadcast_pool

  acquire-pool : (x : R) (y : W) (n : ℕ) (s : Service R rt) → pool_of (acquire x y n s) ≡ pool_of s
  unfolding acquire
  acquire-pool x y zero s = refl
  acquire-pool x y (suc n) s = refl

  resume-pool : (g : Stage R W) (s : Service R rt) → pool_of (resume g s) ≡ pool_of s
  unfolding resume
  resume-pool listening s = refl
  resume-pool (acquiring x y) s = acquire-pool x y s.permits s
  resume-pool closing_down s = refl
  resume-pool returned s = refl

  turned-pool :
      (x : Bool × List (Session R W) × BroadcastPool rt) (s : Service R rt)
      → pool_of (turned x s) ≡ x.2
  unfolding turned with_pool
  turned-pool (false, ts, pool) s = refl
  turned-pool (true, ts, pool) s = resume-pool s.stage _

module _ {R W : Type 0} {rt : Runtime W} ⦃r : Reader R⦄ ⦃w : Writer W⦄ ⦃cc : Codec ClientMessage⦄
    ⦃cs : Codec ServerMessage⦄ where
  turn-pool :
      (n : ℕ) (s : Service R rt)
      → pool_of (turned (turn_nth s.server.cache n s.handlers s.server.broadcast_pool) s)
        ≡ calls (nth_calls s.server.cache n s.handlers) (pool_of s)
  turn-pool n s = turned-pool _ s ∙ turn_nth-calls s.server.cache n s.handlers (pool_of s)

  on_event-pool :
      (blocks : Text → Bool) (g : Stage R W) (e : Event R W) (s : Service R rt)
      → IsNoSignal e
      → pool_of (on_event blocks g e s) ≡ calls (event_calls e s) (pool_of s)
  unfolding on_event event_calls calls
  on_event-pool blocks g shutdown_signal s h = absurd h
  on_event-pool blocks listening (connection x y) s h = acquire-pool x y s.permits s
  on_event-pool blocks (acquiring _ _) (connection x y) s h = refl
  on_event-pool blocks closing_down (connection x y) s h = refl
  on_event-pool blocks returned (connection x y) s h = refl
  on_event-pool blocks listening accept_error s h = refl
  on_event-pool blocks (acquiring _ _) accept_error s h = refl
  on_event-pool blocks closing_down accept_error s h = refl
  on_event-pool blocks returned accept_error s h = refl
  on_event-pool blocks listening (turn n) s h = turn-pool n s
  on_event-pool blocks (acquiring _ _) (turn n) s h = turn-pool n s
  on_event-pool blocks closing_down (turn n) s h = turn-pool n s
  on_event-pool blocks returned (turn n) s h = turn-pool n s

  pub step-pool :
      (blocks : Text → Bool) (e : Event R W) (s : Service R rt)
      → IsNoSignal e
      → pool_of (step blocks e s) ≡ calls (event_calls e s) (pool_of s)
  unfolding step
  step-pool blocks e s h = on_event-pool blocks s.stage e s h

  -- Whatever the loop and the handlers do, short of the shutdown, is for the pool a sequence of
  -- calls of its operations, which the states of the handlers and what they read determine: a
  -- registration creates a dispatcher, and the next step broadcasts `UserJoined`; a `Message` is
  -- broadcast; a `Leave` destroys the dispatcher of its name, the next step broadcasts `UserLeft`,
  -- and the last destroys the dispatcher of the session; and a failed read destroys that of the
  -- session only.
  pub run-trace :
      (blocks : Text → Bool) (es : List (Event R W)) (s : Service R rt)
      → All IsNoSignal es
      → (run blocks es s).server.broadcast_pool ≡ calls (trace blocks es s) s.server.broadcast_pool
  unfolding run trace
  run-trace blocks [] s h = unfold calls in refl
  run-trace blocks (e ∷ es) s h =
      run-trace blocks es (step blocks e s) h.1
      ∙ ap (calls (trace blocks es (step blocks e s))) (step-pool blocks e s h.0)
      ∙ sym (calls-append (event_calls e s) (trace blocks es (step blocks e s)) (pool_of s))
