-- ===== src/Server/Run/Permits.antt =====
-- Connections are limited to `max_connections`.
use simple_chat_ddn.Common.{ℕ, ◌+◌, ◌≤◌, ◌≡◌, ◌≢◌, ◌∙◌, ap, All, refl, List, [], ◌∷◌, Bool, arith}
use simple_chat_ddn.Common.Text.{Text}
use simple_chat_ddn.Server.Runtime.{Runtime}
use simple_chat_ddn.Server.Run.{
  ChatServer, Phase, acquiring, Event, finish, Listener, listen, acquire, release, resume, closing,
  on_event, step, run,
}

-- Every permit is free or held by a handler, and a connection waits only while none is free.
pub record IsValid {W : Type 0} {rt : Runtime W} (max_connections : ℕ) (s : Listener rt)
    : Type 0 where
  pub conserved : s.permits + s.handlers ≡ max_connections
  pub starved : s.phase ≡ acquiring → s.permits ≡ 0

module _ {W : Type 0} {rt : Runtime W} where
  listen-IsValid : (server : ChatServer rt) → IsValid server.max_connections (listen server)
  unfolding listen
  listen-IsValid server = ground arith

  on_event-IsValid :
      (blocks : Text → Bool) (n : ℕ) (p : Phase) (e : Event) (s : Listener rt)
      → s.phase ≡ p
      → IsValid n s
      → IsValid n (on_event blocks p e s)
  unfolding on_event acquire release resume closing
  on_event-IsValid blocks n p e s same v = ground arith

  unmoved :
      (blocks : Text → Bool) (e : Event) (p : Phase) (s : Listener rt)
      → p ≡ acquiring
      → e ≢ finish
      → on_event blocks p e s ≡ s
  unfolding on_event
  unmoved blocks e p s same other = ground arith

  run-IsValid :
      (blocks : Text → Bool) (n : ℕ) (es : List Event) (s : Listener rt)
      → IsValid n s
      → IsValid n (run blocks es s)
  unfolding run step
  run-IsValid blocks n [] s v = v
  run-IsValid blocks n (e ∷ es) s v =
      run-IsValid blocks n es _ (on_event-IsValid blocks n s.phase e s refl v)

  -- From the start on, whatever comes, no more handlers run than `max_connections`.
  run_limited :
      (blocks : Text → Bool) (server : ChatServer rt) (es : List Event)
      → (run blocks es (listen server)).handlers ≤ server.max_connections
  run_limited blocks server es =
      let v =
        run-IsValid blocks server.max_connections es (listen server) (listen-IsValid server) in
      omega (arith, v.conserved)

  -- From the start on, a connection waits for a permit only while `max_connections` handlers run.
  run_waits :
      (blocks : Text → Bool) (server : ChatServer rt) (es : List Event)
      → (run blocks es (listen server)).phase ≡ acquiring
      → (run blocks es (listen server)).handlers ≡ server.max_connections
  run_waits blocks server es h =
      let v =
        run-IsValid blocks server.max_connections es (listen server) (listen-IsValid server) in
      omega (arith, v.conserved, v.starved h)

  -- While a connection waits for a permit, nothing moves the server until a handler returns, a
  -- shutdown signal included.
  run_starved :
      (blocks : Text → Bool) (es : List Event) (s : Listener rt)
      → s.phase ≡ acquiring
      → All (λ e. e ≢ finish) es
      → run blocks es s ≡ s
  unfolding run step
  run_starved blocks [] s p h = refl
  run_starved blocks (e ∷ es) s p (other, h) =
      ap (run blocks es) (unmoved blocks e s.phase s p other) ∙ run_starved blocks es s p h
