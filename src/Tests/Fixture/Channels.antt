-- ===== src/Tests/Fixture/Channels.antt =====
-- A runtime: channels that keep what they carried, and an executor that keeps its jobs.
use simple_chat_ddn.Common.{
  ℕ, zero, suc, ◌≡◌, ◌≢◌, refl, Result, ok, err, Option, none, some, List, [], ◌∷◌, ◌++◌, length,
  ltb, ◌==◌, if◌then◌else◌, arith, Bool, true, false, ℕ_discrete, get_elem?, ◌<◌, ap, inl,
}
use simple_chat_ddn.Common.Text.{Bytes}
use simple_chat_ddn.Core.Message.Server.{SharedServerMessage}
use simple_chat_ddn.Server.Dispatcher.{Dispatcher}
use simple_chat_ddn.Server.Runtime.{Runtime, IsRuntime}
use simple_chat_ddn.Server.Forwarder.CatchingUp.{IsReady}
use simple_chat_ddn.Server.Forwarder.{RecvError, lagged, closed, Receiving, IsReceiving}

-- A channel is the count of its receivers and what it has carried; the executor, the next task and
-- the jobs.
abbrev pub Channel : Type 0
Channel = ℕ × List SharedServerMessage

abbrev pub Jobs : Type 0
Jobs = ℕ × (ℕ → Option (Dispatcher ℕ Bytes))

abbrev pub send_on : SharedServerMessage → Channel → Result (Unit {0}) ℕ × Channel
send_on m (zero, log) = (err tt, (zero, log))
send_on m (suc n, log) = (ok (suc n), (suc n, log ++ m ∷ []))

abbrev pub jobs_of : Jobs → ℕ → Option (Dispatcher ℕ Bytes)
jobs_of (n, f) t = if ltb t n then f t else none

abbrev pub list_runtime : Runtime Bytes
list_runtime = record {
  Sender = Channel;
  Receiver = ℕ;
  Executor = Jobs;
  Task = ℕ;
  subscribe = λ c. (length c.1, (suc c.0, c.1));
  send = send_on;
  spawn = λ j k. (k.0, (suc k.0, λ t. if t == k.0 then some j else k.1 t));
  abort = λ t k. (k.0, λ u. if u == t then none else k.1 u);
}

pub send_on_ok :
    (m : SharedServerMessage) (c : Channel) {n : ℕ}
    → (send_on m c).0 ≡ ok n
    → (send_on m c).1.1 ≡ c.1 ++ m ∷ []
send_on_ok m (zero, log) e = absurd (cc (e))
send_on_ok m (suc k, log) e = refl

pub send_on_err :
    (m : SharedServerMessage) (c : Channel) → (send_on m c).0 ≡ err tt → (send_on m c).1.1 ≡ c.1
send_on_err m (zero, log) e = refl
send_on_err m (suc k, log) e = absurd (cc (e))

pub new_job : (j : Dispatcher ℕ Bytes) (k : Jobs) → jobs_of k k.0 ≡ none
new_job j k = ground arith

pub job_runs :
    (j : Dispatcher ℕ Bytes) (k : Jobs)
    → jobs_of (list_runtime.spawn j k).1 (list_runtime.spawn j k).0 ≡ some j
job_runs j k = ground arith

pub job_keeps :
    (j : Dispatcher ℕ Bytes) (k : Jobs) (t : ℕ)
    → t ≢ (list_runtime.spawn j k).0
    → jobs_of (list_runtime.spawn j k).1 t ≡ jobs_of k t
job_keeps j k t h = ground arith

pub abort_stops : (t : ℕ) (k : Jobs) → jobs_of (list_runtime.abort t k) t ≡ none
abort_stops t k = ground arith

pub abort_spares : (t u : ℕ) (k : Jobs) → u ≢ t → jobs_of (list_runtime.abort t k) u ≡ jobs_of k u
abort_spares t u k h = ground arith

unfoldable pub list_runtime-IsRuntime : IsRuntime list_runtime
list_runtime-IsRuntime = record {
  sent = λ c. c.1;
  start = λ n. n;
  unaborted = jobs_of;
  task_eq = ℕ_discrete;
  subscribe_start = λ c. refl;
  subscribe_keeps = λ c. refl;
  send_ok = λ m c {n} e. send_on_ok m c e;
  send_err = send_on_err;
  spawn_new = new_job;
  spawn_runs = job_runs;
  spawn_keeps = job_keeps;
  abort_marks = abort_stops;
  abort_keeps = abort_spares;
}

idle_branch :
    (b : Bool) (j : Dispatcher ℕ Bytes)
    → ◌≢◌ {A = Option (Dispatcher ℕ Bytes)} (if b then none else none) (some j)
idle_branch true j e = cc (e)
idle_branch false j e = cc (e)

-- An executor without jobs runs none.
pub idle :
    (t : ℕ) (j : Dispatcher ℕ Bytes)
    → list_runtime-IsRuntime.unaborted (0, λ (u : ℕ). none) t ≢ some j
unfolding list_runtime-IsRuntime
idle t j = idle_branch (ltb t 0) j

-- A receiver of a channel that keeps everything.
abbrev recv_from :
    Option SharedServerMessage → ℕ → Option (Result RecvError SharedServerMessage) × ℕ
recv_from none n = (none, n)
recv_from (some m) n = (some (ok m), suc n)

abbrev pub list_receiving : Receiving list_runtime
list_receiving = record { recv = λ n c. recv_from (get_elem? c.1 n) n }

recv_from_ok :
    (o : Option SharedServerMessage) (n : ℕ) {m : SharedServerMessage}
    → (recv_from o n).0 ≡ some (ok m)
    → (o ≡ some m) × ((recv_from o n).1 ≡ suc n)
recv_from_ok none n e = absurd (cc e)
recv_from_ok (some m) n e = (cc e, refl)

recv_from_err :
    (o : Option SharedServerMessage) (n : ℕ) (x : RecvError) → (recv_from o n).0 ≢ some (err x)
recv_from_err none n x e = cc e
recv_from_err (some m) n x e = cc e

recv_from-none :
    (o : Option SharedServerMessage) (n : ℕ) → (recv_from o n).0 ≡ none → (recv_from o n).1 ≡ n
recv_from-none none n e = refl
recv_from-none (some m) n e = absurd (cc e)

pub list_receiving-IsReceiving : IsReceiving list_runtime-IsRuntime list_receiving
unfolding list_runtime-IsRuntime
list_receiving-IsReceiving = record {
  recv_ok = λ n c e. recv_from_ok (get_elem? c.1 n) n e;
  recv_lagged = λ n c {n = k} e. absurd (recv_from_err (get_elem? c.1 n) n (lagged k) e);
  recv_closed = λ n c e. absurd (recv_from_err (get_elem? c.1 n) n closed e);
  recv_none = λ n c e. recv_from-none (get_elem? c.1 n) n e;
}

entry :
    (n : ℕ) (ms : List SharedServerMessage)
    → n < length ms
    → (m : SharedServerMessage) × (get_elem? ms n ≡ some m)
entry n [] h = absurd (omega arith)
entry zero (m ∷ ms) h = (m, refl)
entry (suc n) (m ∷ ms) h = entry n ms (omega arith)

pub list_receiving-IsReady : IsReady list_runtime-IsRuntime list_receiving
unfolding list_runtime-IsRuntime
list_receiving-IsReady = record {
  recv_ready = λ n c h. let (m, e) = entry n c.1 h in inl (m, ap (λ o. (recv_from o n).0) e);
}
