-- ===== src/Server/Runtime.antt =====
-- What the server uses of tokio, as an interface with its laws: the broadcast channel, and the
-- tasks of the executor.
use simple_chat_ddn.Common.{
  ℕ, ◌≡◌, ◌≢◌, Result, ok, err, Option, none, some, List, [], ◌∷◌, ◌++◌, length,
}
use simple_chat_ddn.Core.Message.Server.{SharedServerMessage}
use simple_chat_ddn.Server.Dispatcher.{Dispatcher}

-- `broadcast::Sender` and `Receiver`, `tokio::spawn`, `JoinHandle` and its `abort`. A send is an
-- error if there is no receiver.
pub record Runtime (W : Type 0) : Type 1 where
  pub Sender : Type 0
  pub Receiver : Type 0
  pub Executor : Type 0
  pub Task : Type 0
  pub subscribe : Sender → Receiver × Sender
  pub send : SharedServerMessage → Sender → Result (Unit {0}) ℕ × Sender
  pub spawn : Dispatcher Receiver W → Executor → Task × Executor
  pub abort : Task → Executor → Executor

-- `sent` is what the channel has carried so far, and a receiver gets what comes from `start` on.
-- `unaborted k t` is the job of a task that was spawned and that nobody has told to stop; it may have
-- returned by itself. `abort` only marks a task: it goes on until the executor cancels it. A spawned
-- task is a new one. Tasks have ids, so they can be told apart.
pub record IsRuntime {W : Type 0} (rt : Runtime W) : Type 0 where
  pub sent : rt.Sender → List SharedServerMessage
  pub start : rt.Receiver → ℕ
  pub unaborted : rt.Executor → rt.Task → Option (Dispatcher rt.Receiver W)
  pub task_eq : Discrete rt.Task
  pub subscribe_start : (c : rt.Sender) → start (rt.subscribe c).0 ≡ length (sent c)
  pub subscribe_keeps : (c : rt.Sender) → sent (rt.subscribe c).1 ≡ sent c
  pub send_ok :
      (m : SharedServerMessage) (c : rt.Sender) {n : ℕ}
      → (rt.send m c).0 ≡ ok n
      → sent (rt.send m c).1 ≡ sent c ++ m ∷ []
  pub send_err :
      (m : SharedServerMessage) (c : rt.Sender)
      → (rt.send m c).0 ≡ err tt
      → sent (rt.send m c).1 ≡ sent c
  pub spawn_new :
      (j : Dispatcher rt.Receiver W) (k : rt.Executor) → unaborted k (rt.spawn j k).0 ≡ none
  pub spawn_runs :
      (j : Dispatcher rt.Receiver W) (k : rt.Executor)
      → unaborted (rt.spawn j k).1 (rt.spawn j k).0 ≡ some j
  pub spawn_keeps :
      (j : Dispatcher rt.Receiver W) (k : rt.Executor) (t : rt.Task)
      → t ≢ (rt.spawn j k).0
      → unaborted (rt.spawn j k).1 t ≡ unaborted k t
  pub abort_marks : (t : rt.Task) (k : rt.Executor) → unaborted (rt.abort t k) t ≡ none
  pub abort_keeps :
      (t u : rt.Task) (k : rt.Executor) → u ≢ t → unaborted (rt.abort t k) u ≡ unaborted k u
