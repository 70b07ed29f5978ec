-- ===== src/Program.antt =====
-- main.cpp: the main thread, which adds connections to the stack, and the worker threads, which take
-- them from it, as a step relation. The stack's operations are atomic, so a worker's round is one
-- step: what it does with its own connection no other thread sees.
pub mod Conservation
pub mod Refusals
pub mod Setup
pub mod Main
use small_http_server.Base.{ℕ, ◌+◌, ◌≡◌, Bool, List, [], ◌∷◌, ◌++◌, Option, none, some, replicate}
use small_http_server.Text.{Buffer}
use small_http_server.Net.Socket.{Socket}
use small_http_server.Stack.{Stack, add_socket, get_socket}
use small_http_server.Worker.Serve.{Ending, looping, returned, died, Turn, worker_turn}

-- A thread that is in its loop, with its calls of `stop_requested` so far, or has ended.
pub data Status : Type 0 where
  running : ℕ → Status
  ended : Status

-- How many connections a pointer holds.
abbrev pub held {ℓ} : {A : Type ℓ} → Option A → ℕ
held none = 0
held (some s) = 1

abbrev pub to_list {ℓ} : {A : Type ℓ} → Option A → List A
to_list none = []
to_list (some s) = s ∷ []

-- `accepted` counts the connections that the main thread has added, `closed` lists those that the
-- workers have closed.
pub record Program (A : Type 0) : Type 0 where
  pub stack : Stack A
  pub workers : List Status
  pub accepted : ℕ
  pub closed : List A

abbrev pub thread_count : ℕ
thread_count = 20

-- CreateThreads
unfoldable pub create_threads : List Status
create_threads = replicate thread_count (running 0)

unfoldable pub start : {A : Type 0} → Program A
unfolding create_threads
start = record { stack = []; workers = create_threads; accepted = 0; closed = [] }

module _ (open_file : Buffer → Option Buffer) (cs : Socket) (directory : Buffer)
    (stop : ℕ → Bool) where
  open cs use {State}

  unfoldable pub status_after : Ending open_file cs directory stop → Status
  status_after (looping polls) = running polls
  status_after returned = ended
  status_after (died e) = ended

  -- The body of the main loop, with what WaitClients returns: a null pointer is added like any
  -- other.
  unfoldable pub accept : Option State → Program State → Program State
  unfolding add_socket
  accept socket p = record p {
    stack = add_socket socket p.stack;
    accepted = p.accepted + held socket;
  }

  -- A worker's round, with its end.
  unfoldable pub finish :
      List Status
      → ℕ
      → List Status
      → Turn open_file cs directory stop
      → Program State
      → Program State
  unfolding get_socket status_after
  finish before polls after turn p = record p {
    stack = (get_socket (stop polls) p.stack).1;
    workers = before ++ status_after turn.ending ∷ after;
    closed = to_list turn.closed ++ p.closed;
  }

  pub data Step (p q : Program State) : Type 0 where
    accepts : (socket : Option State) → q ≡ accept socket p → Step p q
    takes_turn :
        (before after : List Status) (polls fuel : ℕ) (turn : Turn open_file cs directory stop)
        → p.workers ≡ before ++ running polls ∷ after
        → worker_turn open_file cs directory stop fuel
            (polls + 1)
            (get_socket (stop polls) p.stack).0
          ≡ some turn
        → q ≡ finish before polls after turn p
        → Step p q

  pub data Reach (p : Program State) : Program State → Type 0 where
    here : Reach p p
    next : {q r : Program State} → Reach p q → Step q r → Reach p r
