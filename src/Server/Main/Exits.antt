-- ===== src/Server/Main/Exits.antt =====
-- How the server's `main` ends.
use simple_chat_ddn.Common.{
  ℕ, ◌≡◌, ◌⊎◌, refl, sym, subst, ◌∙◌, Result, ok, err, List, [], ◌∷◌, Bool, true, false,
  if◌then◌else◌, inl, inr,
}
use simple_chat_ddn.Common.Text.{Text}
use simple_chat_ddn.Core.Bincode.{Codec}
use simple_chat_ddn.Core.Stream.{Reader, Writer}
use simple_chat_ddn.Core.Message.Client.{ClientMessage}
use simple_chat_ddn.Core.Message.Server.{ServerMessage}
use simple_chat_ddn.Server.Runtime.{Runtime}
use simple_chat_ddn.Server.Run.{ChatServer}
use simple_chat_ddn.Server.Service.{
  Stage, listening, acquiring, closing_down, returned, Service, shutdown_signal, accept_error,
  connection, turn,
}
use simple_chat_ddn.Server.Service.Stages.{IsUp, step-IsUp}
use simple_chat_ddn.Server.Service
use simple_chat_ddn.Server.Main.{
  Task, binding, failed, serving, panicked, Event, signal, bound, server, panic, Exit, waiting,
  exited, Process, by_signal, by_server, by_panic, select, has_returned, is_over, logged_for, main,
  task_bound, task_panics, looked_at, served, task_step, step, run,
}

exited_line : {a b : Text} → exited a ≡ exited b → a ≡ b
exited_line e = cc e

module _ {R W : Type 0} where
  up-has_returned : (g : Stage R W) → IsUp g → has_returned g ≡ false
  unfolding has_returned
  up-has_returned listening h = refl
  up-has_returned (acquiring reader writer) h = refl
  up-has_returned closing_down h = absurd h
  up-has_returned returned h = absurd h

module _ {R W : Type 0} {rt : Runtime W} where
  abbrev pub HasFailed : Task R rt → Type 0
  HasFailed (binding s) = ⊥
  HasFailed (failed e) = Unit {0}
  HasFailed (serving s) = ⊥
  HasFailed (panicked e) = ⊥

  abbrev pub HasPanicked : Task R rt → Text → Type 0
  HasPanicked (binding s) line = ⊥
  HasPanicked (failed e) line = ⊥
  HasPanicked (serving s) line = ⊥
  HasPanicked (panicked e) line = line ≡ by_panic e

  -- The task has ended, and the line is the one for how.
  abbrev TellsEnd : Text → Task R rt → Type 0
  TellsEnd line t = ((line ≡ by_server) × HasFailed t) ⊎ HasPanicked t line

  -- The task waits for `bind`, or is in its loop, and has not begun to shut down.
  abbrev pub IsLive : Task R rt → Type 0
  IsLive (binding s) = Unit {0}
  IsLive (failed e) = ⊥
  IsLive (serving s) = IsUp s.stage
  IsLive (panicked e) = ⊥

  -- What the exit tells, by whether the signal was sent.
  abbrev Tells : Bool → Exit → Task R rt → Type 0
  Tells false waiting t = IsLive t
  Tells true waiting t = ⊥
  Tells false (exited line) t = TellsEnd line t
  Tells true (exited line) t = (line ≡ by_signal) ⊎ TellsEnd line t

  abbrev IsConsistent : Process R rt → Type 0
  IsConsistent p = Tells p.signalled p.exit p.task

  -- A task that has failed or panicked.
  abbrev HasDied : Task R rt → Type 0
  HasDied (binding s) = ⊥
  HasDied (failed e) = Unit {0}
  HasDied (serving s) = ⊥
  HasDied (panicked e) = Unit {0}

  -- A task that has died stays as it is; without a signal a live one stays so, or dies.
  abbrev Moves : Bool → Task R rt → Task R rt → Type 0
  Moves signalled t t' =
      ((line : Text) → TellsEnd line t → TellsEnd line t')
      × (signalled ≡ false → IsLive t → IsLive t' ⊎ HasDied t')

  signal-Tells :
      (b : Bool) (x : Exit) (t : Task R rt) → Tells b x t → Tells true (select true by_signal x) t
  unfolding select
  signal-Tells false waiting t h = inl refl
  signal-Tells true waiting t h = inl refl
  signal-Tells false (exited line) t h = inr h
  signal-Tells true (exited line) t h = h

  looked_at-live :
      (t : Task R rt) → IsLive t → Tells false (select (is_over t) (logged_for t) waiting) t
  unfolding select is_over logged_for
  looked_at-live (binding s) h = tt
  looked_at-live (failed e) h = absurd h
  looked_at-live (panicked e) h = absurd h
  looked_at-live (serving s) h =
      subst (λ b. Tells false (if b then exited by_server else waiting) (serving s))
        (sym (up-has_returned s.stage h)) h

  looked_at-died :
      (t : Task R rt) → HasDied t → Tells false (select (is_over t) (logged_for t) waiting) t
  unfolding select is_over logged_for
  looked_at-died (binding s) h = absurd h
  looked_at-died (failed e) h = inl (refl, tt)
  looked_at-died (serving s) h = absurd h
  looked_at-died (panicked e) h = inr refl

  looked_at-Tells :
      (b : Bool) (x : Exit) (t t' : Task R rt)
      → Moves b t t'
      → Tells b x t
      → Tells b (select (is_over t') (logged_for t') x) t'
  looked_at-Tells true waiting t t' m h = absurd h
  looked_at-Tells false waiting t t' m h = elim (m.1 refl h) [
    | inl live ↦ looked_at-live t' live
    | inr over ↦ looked_at-died t' over
  ]
  looked_at-Tells false (exited line) t t' m h = unfold select in m.0 line h
  looked_at-Tells true (exited line) t t' m (inl e) = unfold select in inl e
  looked_at-Tells true (exited line) t t' m (inr h) = unfold select in inr (m.0 line h)

  not_ended :
      (line : Text) (s : ChatServer rt) (t : Task R rt)
      → TellsEnd line (binding s)
      → TellsEnd line t
  not_ended line s t (inl h) = absurd h.1
  not_ended line s t (inr h) = absurd h

  task_bound-Moves :
      (b : Bool) (x : Result Text (Unit {0})) (t : Task R rt) → Moves b t (task_bound x t)
  unfolding task_bound Service.start
  task_bound-Moves b (err e) (binding s) = (λ line h. not_ended line s (failed e) h, λ e h. inr tt)
  task_bound-Moves b (ok _) (binding s) =
      (λ line h. not_ended line s (serving (Service.start s)) h, λ e h. inl tt)
  task_bound-Moves b x (failed e) = (λ line h. h, λ e h. inr tt)
  task_bound-Moves b x (serving s) = (λ line h. h, λ e h. inl h)
  task_bound-Moves b x (panicked e) = (λ line h. h, λ e h. inr tt)

  task_panics-Moves : (b : Bool) (x : Text) (t : Task R rt) → Moves b t (task_panics x t)
  unfolding task_panics is_over
  task_panics-Moves b x (binding s) = (λ line h. not_ended line s (panicked x) h, λ e h. inr tt)
  task_panics-Moves b x (failed e) = (λ line h. h, λ e h. inr tt)
  task_panics-Moves b x (panicked e) = (λ line h. h, λ e h. inr tt)
  task_panics-Moves b x (serving s) = (
    λ line h. absurd (elim h [ inl p ↦ p.1 | inr q ↦ q ]),
    λ e h.
        subst
          (λ o. (let t : Task R rt = if o then serving s else panicked x in IsLive t ⊎ HasDied t))
          (sym (up-has_returned s.stage h)) (inr tt),
  )

  module _ ⦃r : Reader R⦄ ⦃w : Writer W⦄ ⦃enc : Codec ClientMessage⦄
      ⦃dec : Codec ServerMessage⦄ where
    served-IsUp :
        (blocks : Text → Bool) (b : Bool) (e : Service.Event R W) (s : Service R rt)
        → b ≡ false
        → IsUp s.stage
        → IsUp (served blocks b e s).stage
    unfolding served
    served-IsUp blocks true e s x h = absurd (cc x)
    served-IsUp blocks false shutdown_signal s x h = h
    served-IsUp blocks false accept_error s x h = step-IsUp blocks accept_error s tt h
    served-IsUp blocks false (connection a b) s x h = step-IsUp blocks (connection a b) s tt h
    served-IsUp blocks false (turn n) s x h = step-IsUp blocks (turn n) s tt h

    task_step-Moves :
        (blocks : Text → Bool) (b : Bool) (e : Service.Event R W) (t : Task R rt)
        → Moves b t (task_step blocks b e t)
    unfolding task_step
    task_step-Moves blocks b e (binding s) = (λ line h. h, λ x h. inl h)
    task_step-Moves blocks b e (failed x) = (λ line h. h, λ x h. inr tt)
    task_step-Moves blocks b e (panicked x) = (λ line h. h, λ x h. inr tt)
    task_step-Moves blocks b e (serving s) = (
      λ line h. absurd (elim h [ inl p ↦ p.1 | inr q ↦ q ]),
      λ x h. inl (served-IsUp blocks b e s x h),
    )

    step-IsConsistent :
        (blocks : Text → Bool) (e : Event R W) (p : Process R rt)
        → IsConsistent p
        → IsConsistent (step blocks e p)
    unfolding step looked_at
    step-IsConsistent blocks signal p h = signal-Tells p.signalled p.exit p.task h
    step-IsConsistent blocks (bound x) p h =
        looked_at-Tells p.signalled p.exit p.task _ (task_bound-Moves p.signalled x p.task) h
    step-IsConsistent blocks (server e) p h =
        looked_at-Tells p.signalled p.exit p.task _ (task_step-Moves blocks p.signalled e p.task) h
    step-IsConsistent blocks (panic e) p h =
        looked_at-Tells p.signalled p.exit p.task _ (task_panics-Moves p.signalled e p.task) h

    run-IsConsistent :
        (blocks : Text → Bool) (es : List (Event R W)) (p : Process R rt)
        → IsConsistent p
        → IsConsistent (run blocks es p)
    unfolding run
    run-IsConsistent blocks [] p h = h
    run-IsConsistent blocks (e ∷ es) p h =
        run-IsConsistent blocks es (step blocks e p) (step-IsConsistent blocks e p h)

  Tells-waiting :
      (b : Bool) (x : Exit) (t : Task R rt) → x ≡ waiting → Tells b x t → (b ≡ false) × IsLive t
  Tells-waiting false waiting t e h = (refl, h)
  Tells-waiting true waiting t e h = absurd h
  Tells-waiting b (exited line) t e h = absurd (cc e)

  Tells-exited :
      (b : Bool) (x : Exit) (t : Task R rt) (line : Text)
      → x ≡ exited line
      → Tells b x t
      → ((line ≡ by_signal) × (b ≡ true)) ⊎ TellsEnd line t
  Tells-exited b waiting t line e h = absurd (cc e)
  Tells-exited false (exited logged) t line e h = inr (subst (λ x. TellsEnd x t) (exited_line e) h)
  Tells-exited true (exited logged) t line e (inl h) = inl (sym (exited_line e) ∙ h, refl)
  Tells-exited true (exited logged) t line e (inr h) =
      inr (subst (λ x. TellsEnd x t) (exited_line e) h)

module _ {R W : Type 0} (rt : Runtime W) ⦃r : Reader R⦄ ⦃w : Writer W⦄ ⦃enc : Codec ClientMessage⦄
    ⦃dec : Codec ServerMessage⦄ (blocks : Text → Bool) (channel : ℕ → rt.Sender)
    (executor : rt.Executor) (max_connections : ℕ) where
  ended-IsConsistent :
      (es : List (Event R W))
      → IsConsistent (run blocks es (main {rt = rt} channel executor max_connections))
  unfolding main
  ended-IsConsistent es = run-IsConsistent blocks es (main channel executor max_connections) tt

  -- If the server's `main` has returned, either it has logged that the shutdown signal was
  -- received, and the signal was sent; or it has logged that the server completed normally, and
  -- then the socket could not be bound; or it has logged a server error, and then the server's task
  -- has panicked with that error.
  pub run_exited :
      (es : List (Event R W)) (line : Text)
      → let p : Process R rt = run blocks es (main channel executor max_connections) in
        p.exit ≡ exited line
        → ((line ≡ by_signal) × (p.signalled ≡ true))
          ⊎ (((line ≡ by_server) × HasFailed p.task) ⊎ HasPanicked p.task line)
  run_exited es line e = Tells-exited _ _ _ line e (ended-IsConsistent es)

  -- As long as the server's `main` has not returned, the signal was not sent, and the server's task
  -- waits for the socket, or its loop has not begun to shut down: `main` never waits for a
  -- shutdown.
  pub run-waiting :
      (es : List (Event R W))
      → let p : Process R rt = run blocks es (main channel executor max_connections) in
        p.exit ≡ waiting → (p.signalled ≡ false) × IsLive p.task
  run-waiting es e = Tells-waiting _ _ _ e (ended-IsConsistent es)
