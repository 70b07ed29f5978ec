-- ===== src/Threads.antt =====
-- main.cpp and Worker.cpp, interleaved: what a thread does between two looks at the stop flag is one
-- step, the main thread's loop and its end are steps too, and the flag is one that all threads see.
pub mod Lifecycle
pub mod Simulation
pub mod Ending
pub mod Progress
pub mod Shutdown
pub mod Joins
pub mod Rounds
pub mod Whole
use mathlib.Core.Option
use small_http_server.Base.{
  ℕ, ◌+◌, ◌≡◌, Bool, true, false, not, ◌&&◌, List, [], ◌∷◌, ◌++◌, Option, none, some, map,
  replicate, All, if◌then◌else◌,
}
use small_http_server.Exceptions.{Result, ok, throw}
use small_http_server.Text.{Buffer}
use small_http_server.Net.Socket.{Socket}
use small_http_server.Stack.{Stack, add_socket, get_socket, destroy}
use small_http_server.Worker.Serve.{serve_request}
use small_http_server.Program.{thread_count, held, to_list}

-- Where a thread stands in the function Worker: at its call of GetSocket, behind it, at the test of
-- the inner loop with the variable `isKA`, at the test of the outer loop, or at the end.
pub data Thread (A : Type 0) : Type 0 where
  fetching : Thread A
  fetched : Option A → Thread A
  serving : Bool → A → Thread A
  looping : Thread A
  ended : Thread A

-- Where the main thread stands: in WaitClients, at the test of its loop, at the calls of `join`, or
-- behind the block that declares the stack, which it has left by its end or by an exception.
pub data Main : Type 0 where
  waiting testing joining returned threw : Main

unfoldable pub has_stack : Main → Bool
has_stack waiting = true
has_stack testing = true
has_stack joining = true
has_stack returned = false
has_stack threw = false

pub record Program (A : Type 0) : Type 0 where
  pub main : Main
  pub stopping : Bool
  pub stack : Stack A
  pub threads : List (Thread A)
  pub accepted : ℕ
  pub closed : List A

unfoldable pub start : {A : Type 0} → Program A
start = record {
  main = waiting;
  stopping = false;
  stack = [];
  threads = replicate thread_count fetching;
  accepted = 0;
  closed = [];
}

-- A thread's step: where it stands then, the stack, and the connection that was destroyed.
pub record Move (A : Type 0) : Type 0 where
  pub thread : Thread A
  pub stack : Stack A
  pub closed : Option A

-- sig_handler
unfoldable pub request_stop : {A : Type 0} → Program A → Program A
request_stop p = record p { stopping = true }

-- The body of the main loop with what WaitClients returns, and the loop's test.
unfoldable pub add_client : {A : Type 0} → Option A → Program A → Program A
unfolding add_socket
add_client socket p = record p {
  main = testing;
  stack = add_socket socket p.stack;
  accepted = p.accepted + held socket;
}

unfoldable pub test_stop : {A : Type 0} → Program A → Program A
test_stop p = record p { main = if p.stopping then joining else waiting }

module _ (open_file : Buffer → Option Buffer) (cs : Socket) (directory : Buffer) where
  open cs use {State, set_timeout, close}

  -- The end of a request: the connection is destroyed where the inner loop is left, also by an
  -- exception, which ends the thread.
  unfoldable pub after_request :
      Stack State → Option (Result (Option Bool) × State) → Option (Move State)
  after_request stack none = none
  after_request stack (some (ok (some is_ka), s)) =
      some (record { thread = serving is_ka s; stack = stack; closed = none })
  after_request stack (some (ok none, s)) =
      some (record { thread = looping; stack = stack; closed = some (close s) })
  after_request stack (some (throw e, s)) =
      some (record { thread = ended; stack = stack; closed = some (close s) })

  -- Behind GetSocket.
  unfoldable pub begin_serving : Stack State → Option State → Move State
  begin_serving stack none = record { thread = looping; stack = stack; closed = none }
  begin_serving stack (some s) = record {
    thread = serving true (set_timeout s);
    stack = stack;
    closed = none;
  }

  -- What a thread does next, with what `stop_requested` answers; `none` for a thread that has ended.
  unfoldable pub advance : Bool → Stack State → Thread State → Option (Move State)
  unfolding after_request begin_serving get_socket
  advance stopping stack fetching =
      let (socket, rest) = get_socket stopping stack in
      some (record { thread = fetched socket; stack = rest; closed = none })
  advance stopping stack (fetched socket) =
      if stopping
      then some (record { thread = ended; stack = stack; closed = Option.map close socket })
      else some (begin_serving stack socket)
  advance stopping stack (serving is_ka s) =
      if is_ka && not stopping
      then after_request stack (serve_request open_file cs directory s)
      else some (record { thread = looping; stack = stack; closed = some (close s) })
  advance stopping stack looping =
      some (record { thread = if stopping then ended else fetching; stack = stack; closed = none })
  advance stopping stack ended = none

  unfoldable pub put_back :
      List (Thread State) → List (Thread State) → Move State → Program State → Program State
  put_back before after move p = record p {
    stack = move.stack;
    threads = before ++ move.thread ∷ after;
    closed = to_list move.closed ++ p.closed;
  }

  -- The destruction of the stack, with the connections that are left on it.
  unfoldable pub destroy_stack : Stack State → List State
  unfolding destroy
  destroy_stack stack = map close (destroy stack)

  unfoldable pub leave : Main → Program State → Program State
  unfolding destroy_stack
  leave main p = record p { main = main; stack = []; closed = destroy_stack p.stack ++ p.closed }

  abbrev pub HasEnded : Thread State → Type 0
  HasEnded t = t ≡ ended

  -- The steps: the signal, the main loop's body and its test, the end of main behind the joins, which
  -- wait for every thread, an exception of WaitClients, and a step of a thread. Once the stack is
  -- destroyed no thread has a step: a call of GetSocket is then undefined behaviour.
  pub data Step (p q : Program State) : Type 0 where
    signalled : q ≡ request_stop p → Step p q
    adds : (socket : Option State) → p.main ≡ waiting → q ≡ add_client socket p → Step p q
    tests : p.main ≡ testing → q ≡ test_stop p → Step p q
    joins : p.main ≡ joining → All HasEnded p.threads → q ≡ leave returned p → Step p q
    throws : p.main ≡ waiting → q ≡ leave threw p → Step p q
    moves :
        (before after : List (Thread State)) (thread : Thread State) (move : Move State)
        → has_stack p.main ≡ true
        → p.threads ≡ before ++ thread ∷ after
        → advance p.stopping p.stack thread ≡ some move
        → q ≡ put_back before after move p
        → Step p q

  pub data Reach (p : Program State) : Program State → Type 0 where
    here : Reach p p
    next : {q r : Program State} → Reach p q → Step q r → Reach p r
