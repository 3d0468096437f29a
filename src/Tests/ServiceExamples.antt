-- ===== src/Tests/ServiceExamples.antt =====
-- The theorems on the server's loop with its handlers, and on its `main`, at concrete inputs.
use simple_chat_ddn.Common.{
  ℕ, ◌+◌, ◌≡◌, ◌⊎◌, refl, ok, List, [], ◌∷◌, ◌++◌, map, Option, none, true, false, Bool,
}
use simple_chat_ddn.Common.Text.{Text, Bytes}
use simple_chat_ddn.Core.Message.Server.{SharedServerMessage}
use simple_chat_ddn.Server.Dispatcher.{Dispatcher}
use simple_chat_ddn.Server.Run
use simple_chat_ddn.Server.Run.{ChatServer}
use simple_chat_ddn.Server.Pool.{new}
use simple_chat_ddn.Server.Service.{
  Service, Event, acquiring, shutdown_signal, accept_error, connection, turn, start, step, run,
}
use simple_chat_ddn.Server.Service.Permits.{running, IsAcquiring, run_conserved}
use simple_chat_ddn.Server.Service.Refinement.{view, with_server_of, shadow, view-step}
use simple_chat_ddn.Server.Service.Names.{run-IsNamed}
use simple_chat_ddn.Server.Session.Vetting.{IsNamed, emptied-IsNamed}
use simple_chat_ddn.Server.Service.Hangup.{connect, run-connect_hung_up}
use simple_chat_ddn.Server.Main
use simple_chat_ddn.Server.Main.{
  Process, waiting, exited, signal, bound, main, by_signal, by_server,
}
use simple_chat_ddn.Server.Main.Exits.{HasFailed, HasPanicked, IsLive, run_exited, run-waiting}
use simple_chat_ddn.Tests.Actors.{alice, cache, no_clients}
use simple_chat_ddn.Tests.Fixture.{
  client_codec, server_codec, bytes_reader, bytes_reader-IsReader, bytes_reader-IsPrompt,
  bytes_writer, list_runtime,
}

abbrev server : ChatServer list_runtime
server = record { max_connections = 1; broadcast_pool = no_clients; cache = cache }

-- What a client sends that asks for alice's name.
abbrev asks : Bytes
asks = 0 ∷ 0 ∷ 0 ∷ 6 ∷ 0 ∷ alice

abbrev never : Text → Bool
never u = false

-- Two connections for one permit; the first handler joins, registers, chats and ends.
abbrev visits : List (Event Bytes Bytes)
visits =
    connection asks [] ∷ connection asks [] ∷ turn 0 ∷ turn 0 ∷ turn 0 ∷ turn 1 ∷ accept_error ∷ []

run_conserved_example :
    (run never visits (start server)).permits + running (run never visits (start server)).handlers
    ≡ 1
run_conserved_example = run_conserved never server visits

abbrev two : List (Event Bytes Bytes)
two = connection asks [] ∷ connection [] [] ∷ []

two_acquire : IsAcquiring (run never two (start server)).stage
unfolding run start
two_acquire = tt

view-step_example :
    let s : Service Bytes list_runtime = run never two (start server) in
    view (step never (turn 0) s)
    ≡ with_server_of (step never (turn 0) s) (Run.run never (shadow s (turn 0)) (view s))
view-step_example = view-step never (turn 0) (run never two (start server))

no_names : IsNamed no_clients
unfolding new
no_names = emptied-IsNamed no_clients refl

run-IsNamed_example : IsNamed (run never visits (start server)).server.broadcast_pool
unfolding start
run-IsNamed_example = run-IsNamed never visits (start server) tt no_names

run-connect_hung_up_example :
    let s : Service Bytes list_runtime =
      run never
        (map connect (([], []) ∷ []) ++ connection asks [] ∷ turn 0 ∷ shutdown_signal ∷ [])
        (start server) in
    (s.stage ≡ acquiring asks []) × (s.server ≡ server)
run-connect_hung_up_example =
    run-connect_hung_up bytes_reader-IsReader bytes_reader-IsPrompt never server (([], []) ∷ [])
      asks [] (turn 0 ∷ shutdown_signal ∷ []) refl (refl, tt)

abbrev channel : ℕ → ℕ × List SharedServerMessage
channel n = (0, [])

abbrev executor : ℕ × (ℕ → Option (Dispatcher ℕ Bytes))
executor = (0, λ t. none)

-- A client comes, and then the signal.
abbrev evening : List (Main.Event Bytes Bytes)
evening = bound (ok tt) ∷ Main.server (connection asks []) ∷ signal ∷ []

signal_ends :
    (Main.run {rt = list_runtime} never evening (main channel executor 10)).exit ≡ exited by_signal
unfolding Main.run main
signal_ends = refl

run_exited_example :
    let p : Process Bytes list_runtime = Main.run never evening (main channel executor 10) in
    ((by_signal ≡ by_signal) × (p.signalled ≡ true))
    ⊎ (((by_signal ≡ by_server) × HasFailed p.task) ⊎ HasPanicked p.task by_signal)
run_exited_example = run_exited list_runtime never channel executor 10 evening by_signal signal_ends

abbrev day : List (Main.Event Bytes Bytes)
day = bound (ok tt) ∷ Main.server (connection asks []) ∷ Main.server shutdown_signal ∷ []

day_goes_on : (Main.run {rt = list_runtime} never day (main channel executor 10)).exit ≡ waiting
unfolding Main.run main
day_goes_on = refl

run-waiting_example :
    let p : Process Bytes list_runtime = Main.run never day (main channel executor 10) in
    (p.signalled ≡ false) × IsLive p.task
run-waiting_example = run-waiting list_runtime never channel executor 10 day day_goes_on
