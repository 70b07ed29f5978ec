-- ===== src/Tests/Threads.antt =====
-- Runs of the interleaved program.
use small_http_server.Base.{◌+◌, ◌*◌, ◌≤◌, ◌≡◌, refl, [], none, some, length, replicate, All}
use small_http_server.Program as Rounds
use small_http_server.Threads.{
  Thread, Move, fetching, fetched, ended, returned, threw, Program, start, request_stop, add_client,
  put_back, leave, advance, HasEnded, has_stack, Step, signalled, adds, throws, moves, Reach, here,
  next,
}
use small_http_server.Threads.Lifecycle.{in_service, life, Events}
use small_http_server.Threads.Simulation.{Reach-Events}
use small_http_server.Threads.Ending.{start-Reach-end}
use small_http_server.Threads.Shutdown.{thread_steps, thread_steps-le}
use small_http_server.Threads.Progress.{thread-Step}
use small_http_server.Threads.Joins.{stopped_returns}
use small_http_server.Threads.Rounds.{embed, Reach-Reach}
use small_http_server.Tests.Peers.{Session, client}
use small_http_server.Tests.Worker.{open_file, directory, sends, bad_request}
use small_http_server.Tests.Program.{never, begin, accepted_one, begin-Step}

abbrev initial : Program Session
unfolding start
initial = start

-- A connection is accepted.
abbrev added : Program Session
unfolding add_client
added = add_client (some (sends bad_request)) initial

added-Reach : Reach open_file client directory initial added
unfolding initial added
added-Reach = next here (adds (some (sends bad_request)) refl refl)

-- The first thread takes it.
abbrev taken : Program Session
unfolding put_back
taken =
    put_back open_file client directory [] (replicate 19 fetching)
      (record { thread = fetched (some (sends bad_request)); stack = []; closed = none }) added

added-Step : Step open_file client directory added taken
unfolding added taken advance has_stack initial
added-Step = moves [] (replicate 19 fetching) fetching _ refl refl refl refl

taken-Reach : Reach open_file client directory initial taken
taken-Reach = next added-Reach added-Step

Reach-Events_example : Events (life initial) (life taken)
Reach-Events_example = Reach-Events open_file client directory initial taken taken-Reach

-- A signal, while the main thread is at its test.
abbrev stopped : Program Session
unfolding request_stop
stopped = request_stop taken

stopped-Reach : Reach open_file client directory initial stopped
unfolding stopped
stopped-Reach = next taken-Reach (signalled refl)

stopped_returns_example :
    (q : Program Session) × Reach open_file client directory stopped q
    × (q.main ≡ returned)
    × All (HasEnded open_file client directory) q.threads
    × (q.accepted ≡ length q.closed)
unfolding initial stopped taken added
stopped_returns_example = stopped_returns open_file client directory stopped stopped-Reach refl refl

-- An exception of WaitClients, with all threads at work.
abbrev aborted : Program Session
unfolding leave
aborted = leave open_file client directory threw initial

aborted-Reach : Reach open_file client directory initial aborted
unfolding aborted initial
aborted-Reach = next here (throws refl refl)

start-Reach-end_example :
    ((aborted.main ≡ returned)
      → All (HasEnded open_file client directory) aborted.threads
        × (aborted.accepted ≡ length aborted.closed))
    × ((aborted.main ≡ threw)
        → aborted.accepted ≡ in_service aborted.threads + length aborted.closed)
unfolding initial
start-Reach-end_example = start-Reach-end open_file client directory aborted aborted-Reach

-- Behind the stop the thread that has a connection ends, and destroys it.
abbrev dropped : Program Session
unfolding put_back
dropped =
    put_back open_file client directory [] (replicate 19 fetching)
      (record { thread = ended; stack = []; closed = some (sends bad_request) }) stopped

stopped-Step : Step open_file client directory stopped dropped
unfolding stopped dropped taken added initial advance has_stack
stopped-Step =
    moves [] (replicate 19 fetching) (fetched (some (sends bad_request))) _ refl refl refl refl

thread_steps-le_example :
    thread_steps open_file client directory (next here stopped-Step) ≤ 2 * length stopped.threads
unfolding stopped
thread_steps-le_example =
    thread_steps-le open_file client directory stopped dropped (next here stopped-Step) refl

Reach-Reach_example : Reach open_file client directory (embed begin) (embed accepted_one)
Reach-Reach_example =
    Reach-Reach open_file client directory never (λ k. refl) begin accepted_one
      (Rounds.next Rounds.here begin-Step)

fetching-not-ended : ¬ (◌≡◌ {A = Thread Session} fetching ended)
fetching-not-ended e = cc

thread-Step_example :
    (m : Move Session) × (advance open_file client directory initial.stopping initial.stack fetching
      ≡ some m)
    × Step open_file client directory initial
        (put_back open_file client directory [] (replicate 19 fetching) m initial)
unfolding initial has_stack
thread-Step_example =
    thread-Step open_file client directory initial [] (replicate 19 fetching) fetching refl refl
      fetching-not-ended
