-- ===== src/Server/Main.antt =====
-- `main` and `shutdown_signal` of chat-server/src/main.rs, once the arguments are parsed: the select
-- between the signal and the server's task, which runs beside it.
pub mod Exits
use simple_chat_ddn.Common.{
  ℕ, Result, ok, err, List, [], ◌∷◌, ◌++◌, Bool, true, false, ◌&&◌, not, if◌then◌else◌,
}
use simple_chat_ddn.Common.Text.{Text, ascii}
use simple_chat_ddn.Core.Bincode.{Codec}
use simple_chat_ddn.Core.Stream.{Reader, Writer}
use simple_chat_ddn.Core.Message.Client.{ClientMessage}
use simple_chat_ddn.Core.Message.Server.{ServerMessage}
use simple_chat_ddn.Server.Runtime.{Runtime}
use simple_chat_ddn.Server.Run.{ChatServer}
use simple_chat_ddn.Server.Run
use simple_chat_ddn.Server.Service.{
  Stage, listening, acquiring, closing_down, returned, Service, shutdown_signal, accept_error,
  connection, turn,
}
use simple_chat_ddn.Server.Service

-- The defaults of the arguments.
abbrev pub default_host : Text
default_host = ascii "127.0.0.1"

abbrev pub default_port : ℕ
default_port = 8080

abbrev pub default_max_connections : ℕ
default_max_connections = 1000

-- The server's task: it waits for `bind`; `bind` has failed, and `run` has returned its error; it is
-- in its loop, or has returned at the end of it; or it has panicked, and the executor tells so.
pub data Task (R : Type 0) {W : Type 0} (rt : Runtime W) : Type 0 where
  binding : ChatServer rt → Task R rt
  failed : Text → Task R rt
  serving : Service R rt → Task R rt
  panicked : Text → Task R rt

-- Ctrl+C or a termination, the result of `bind`, something that the server's loop meets, or a panic of
-- the server's task, with the error that its handle gives.
pub data Event (R W : Type 0) : Type 0 where
  signal : Event R W
  bound : Result Text (Unit {0}) → Event R W
  server : Service.Event R W → Event R W
  panic : Text → Event R W

-- `main` still waits in its select, or has returned `Ok(())` after this line in its log.
pub data Exit : Type 0 where
  waiting : Exit
  exited : (logged : Text) → Exit

-- `signalled`: `shutdown_tx.send(())` has been called.
pub record Process (R : Type 0) {W : Type 0} (rt : Runtime W) : Type 0 where
  pub task : Task R rt
  pub signalled : Bool
  pub exit : Exit

abbrev pub by_signal : Text
by_signal = ascii "Shutdown signal received, server will shutdown gracefully"

abbrev pub by_server : Text
by_server = ascii "Server completed normally"

abbrev pub by_panic : Text → Text
by_panic e = ascii "Server error: " ++ e

-- The first branch that is ready ends `main`.
select : Bool → Text → Exit → Exit
select ready line (exited logged) = exited logged
select ready line waiting = if ready then exited line else waiting

module _ {R W : Type 0} where
  has_returned : Stage R W → Bool
  has_returned returned = true
  has_returned listening = false
  has_returned (acquiring reader writer) = false
  has_returned closing_down = false

module _ {R W : Type 0} {rt : Runtime W} where
  -- The task has completed: its `run` has returned, with success or not, or it has panicked.
  unfoldable pub is_over : Task R rt → Bool
  unfolding has_returned
  is_over (binding s) = false
  is_over (failed e) = true
  is_over (serving s) = has_returned s.stage
  is_over (panicked e) = true

  -- The line for its result: `Ok(_)` is whatever `run` returned.
  logged_for : Task R rt → Text
  logged_for (binding s) = by_server
  logged_for (failed e) = by_server
  logged_for (serving s) = by_server
  logged_for (panicked e) = by_panic e

  -- `ChatServer::new`, and the task that is spawned.
  unfoldable pub main : (ℕ → rt.Sender) → rt.Executor → ℕ → Process R rt
  unfolding Run.new
  main channel executor max_connections = record {
    task = binding (Run.new channel executor max_connections);
    signalled = false;
    exit = waiting;
  }

  task_bound : Result Text (Unit {0}) → Task R rt → Task R rt
  unfolding Service.start
  task_bound (err e) (binding s) = failed e
  task_bound (ok _) (binding s) = serving (Service.start s)
  task_bound r (failed e) = failed e
  task_bound r (serving s) = serving s
  task_bound r (panicked x) = panicked x

  -- A task that has completed cannot panic.
  task_panics : Text → Task R rt → Task R rt
  unfolding is_over
  task_panics e task = if is_over task then task else panicked e

  -- The task has moved, and the select looks at it.
  looked_at : Task R rt → Process R rt → Process R rt
  unfolding select is_over logged_for
  looked_at task p = record p { task = task; exit = select (is_over task) (logged_for task) p.exit }

  module _ ⦃r : Reader R⦄ ⦃w : Writer W⦄ ⦃cc : Codec ClientMessage⦄ ⦃cs : Codec ServerMessage⦄ where
    -- The loop meets the signal only after it was sent.
    served : (Text → Bool) → Bool → Service.Event R W → Service R rt → Service R rt
    unfolding Service.step
    served blocks false shutdown_signal s = s
    served blocks true shutdown_signal s = Service.step blocks shutdown_signal s
    served blocks signalled accept_error s = Service.step blocks accept_error s
    served blocks signalled (connection reader writer) s =
        Service.step blocks (connection reader writer) s
    served blocks signalled (turn n) s = Service.step blocks (turn n) s

    task_step : (Text → Bool) → Bool → Service.Event R W → Task R rt → Task R rt
    unfolding served
    task_step blocks signalled e (binding s) = binding s
    task_step blocks signalled e (failed x) = failed x
    task_step blocks signalled e (panicked x) = panicked x
    task_step blocks signalled e (serving s) = serving (served blocks signalled e s)

    -- The signal is sent, and the select returns with it. The server's task goes on until the
    -- process is gone.
    unfoldable pub step : (Text → Bool) → Event R W → Process R rt → Process R rt
    unfolding select task_bound task_step task_panics looked_at
    step blocks signal p = record p { signalled = true; exit = select true by_signal p.exit }
    step blocks (bound result) p = looked_at (task_bound result p.task) p
    step blocks (server e) p = looked_at (task_step blocks p.signalled e p.task) p
    step blocks (panic e) p = looked_at (task_panics e p.task) p

    unfoldable pub run : (Text → Bool) → List (Event R W) → Process R rt → Process R rt
    unfolding step
    run blocks [] p = p
    run blocks (e ∷ es) p = run blocks es (step blocks e p)
