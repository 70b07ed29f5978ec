-- ===== src/Tests/Whole.antt =====
-- A run of main: one socket, and a wait that is interrupted.
use small_http_server.Base.{
  ℕ, All, length, ◌+◌, ◌≡◌, true, refl, ◌⊎◌, false, [], ◌∷◌, none, some, Option,
}
use small_http_server.Base.Int.{ℤ, is_negative, pos}
use small_http_server.Exceptions.{Result, Exception, net_exception, throw, ok}
use small_http_server.Text
use small_http_server.Text.{Buffer, codes}
use small_http_server.Net.System.{System, Trace, closes, epoll_wait}
use small_http_server.Net.Acceptor.{Connection}
use small_http_server.Net.Server
use small_http_server.Net.Server.{Server, wait_loop}
use small_http_server.Options.{command_option}
use small_http_server.Program.Main.Balance.{listens}
use small_http_server.Program.Main.Listens.{held, set_up-listens}
use small_http_server.Program.Main.{set_up, first_directory}
use small_http_server.Threads.{
  returned, HasEnded, Reach, testing, signalled, request_stop, add_client, Program, start, leave,
  threw, waiting,
}
use small_http_server.Threads.Whole.{
  steps, waits, Joint, begins, wait_throws, Finishes, block_throws,
}
use small_http_server.Threads.Whole.Ends.{Joint-Finishes}
use small_http_server.Threads.Whole.Finish.{Failed, Served, Reported, Finishes-Served}
use small_http_server.Tests.Peers.{Session, client, answers}
use small_http_server.Tests.Worker.{open_file}
use small_http_server.Tests.Starting.{objects, set_up_server}

-- epoll_wait is interrupted.
abbrev interrupted : System
interrupted = record (answers (pos 1)) { events = λ trace. none }

abbrev made : Connection → Session
made c = record { inbox = []; outbox = [] }

abbrev reason : Exception
reason = net_exception "Error epoll_wait create"

abbrev trace_of {ℓ} : {A : Type ℓ} → Option (A × Trace) → Trace
trace_of none = []
trace_of (some (a, trace)) = trace

abbrev set_up_calls : Trace
unfolding set_up Text.str_eq
set_up_calls = trace_of (set_up interrupted objects [] none [])

set_up-runs :
    set_up interrupted objects [] none []
    ≡ some (ok (set_up_server, some command_option.directory), set_up_calls)
unfolding set_up Text.str_eq first_directory set_up_calls
set_up-runs = refl

abbrev all_calls : Trace
all_calls = epoll_wait (pos 1) 300 ∷ set_up_calls

wait-throws :
    wait_loop interrupted (λ k. false) set_up_server 1 0 set_up_calls
    ≡ some (throw reason, all_calls)
unfolding wait_loop
wait-throws = refl

abbrev end_calls : Trace
unfolding Server.destroy
end_calls = trace_of (Server.destroy interrupted set_up_server all_calls)

abbrev left : Program Session
left = leave open_file client command_option.directory threw start

destroy-runs : Server.destroy interrupted set_up_server all_calls ≡ some (ok tt, end_calls)
unfolding Server.destroy end_calls
destroy-runs = refl

main-start : ◌≡◌ (start {A = Session}).main waiting
unfolding start
main-start = refl

not_requested : (k : ℕ) → false ≡ true → (start {A = Session}).stopping ≡ true
not_requested k h = cc h

interrupted-Finishes :
    Finishes interrupted open_file client made objects [] none end_calls (some reason)
interrupted-Finishes =
    block_throws set_up_server command_option.directory set_up_calls all_calls left reason
      set_up-runs
      (wait_throws (λ k. false) 1 reason all_calls begins main-start not_requested wait-throws)
      destroy-runs

Finishes-Served_example :
    ((◌≡◌ {A = Option Exception} (some reason) none)
      × Served interrupted open_file client made objects [] none end_calls)
    ⊎ ((e : Exception) × (some reason ≡ some e)
        × Failed interrupted open_file client made objects [] none end_calls e
        × Reported interrupted open_file client made objects [] none e)
Finishes-Served_example =
    Finishes-Served interrupted open_file client made objects [] none end_calls (some reason)
      interrupted-Finishes

-- A stop that is requested before WaitClients comes back.
abbrev calm : System
calm = answers (pos 1)

abbrev calm_calls : Trace
unfolding set_up Text.str_eq
calm_calls = trace_of (set_up calm objects [] none [])

calm-set_up :
    set_up calm objects [] none []
    ≡ some (ok (set_up_server, some command_option.directory), calm_calls)
unfolding set_up Text.str_eq first_directory calm_calls
calm-set_up = refl

abbrev stopping : Program Session
unfolding request_stop
stopping = request_stop start

abbrev woken : Program Session
unfolding add_client
woken = add_client none stopping

calm-wait :
    wait_loop calm (λ k. true) set_up_server 1 0 calm_calls
    ≡ some (ok none, epoll_wait (pos 1) 300 ∷ calm_calls)
unfolding wait_loop
calm-wait = refl

stopping-waits : stopping.main ≡ waiting
unfolding stopping start request_stop
stopping-waits = refl

woken-Joint :
    Joint calm open_file client made set_up_server command_option.directory calm_calls none woken
      (epoll_wait (pos 1) 300 ∷ calm_calls)
unfolding woken stopping request_stop
woken-Joint =
    waits (λ k. true) 1 none (epoll_wait (pos 1) 300 ∷ calm_calls)
      (steps begins (signalled refl) (λ h. stopping-waits)) stopping-waits (λ k h. refl) calm-wait

woken-tests : woken.main ≡ testing
unfolding woken add_client
woken-tests = refl

woken-stopping : woken.stopping ≡ true
unfolding woken add_client stopping request_stop
woken-stopping = refl

Joint-Finishes_example :
    (q : Program Session) × (after : Trace) × Reach open_file client command_option.directory woken
      q
    × Joint calm open_file client made set_up_server command_option.directory calm_calls none q
        (epoll_wait (pos 1) 300 ∷ calm_calls)
    × (q.main ≡ returned)
    × (Server.destroy calm set_up_server (epoll_wait (pos 1) 300 ∷ calm_calls)
        ≡ some (ok tt, after))
    × Finishes calm open_file client made objects [] none after none
    × All (HasEnded open_file client command_option.directory) q.threads
    × (q.accepted ≡ length q.closed)
    × ((fd : ℤ) → is_negative fd ≡ false → closes fd after ≡ listens fd calm_calls)
Joint-Finishes_example =
    Joint-Finishes calm open_file client made objects [] none set_up_server command_option.directory
      calm_calls (epoll_wait (pos 1) 300 ∷ calm_calls) woken calm-set_up woken-Joint woken-tests
      woken-stopping

set_up-listens_example :
    (outcome : Result (Server × Option Buffer)) × (after : Trace) × (set_up calm objects [] none []
      ≡ some (outcome, after))
    × (listens (pos 1) after ≡ closes (pos 1) after + held (pos 1) outcome)
set_up-listens_example = set_up-listens calm objects [] none (pos 1) refl
