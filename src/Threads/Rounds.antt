-- ===== src/Threads/Rounds.antt =====
-- The program whose rounds are single steps, against the one whose threads are interleaved, while no
-- stop is requested.
use mathlib.Core.List.{map-append}
use small_http_server.Base.{
  ℕ, zero, suc, ◌+◌, ◌≡◌, refl, sym, subst, Bool, true, false, List, ◌∷◌, ◌++◌, Option, some, none,
  map,
}
use small_http_server.Exceptions.{Result, ok, throw}
use small_http_server.Text.{Buffer}
use small_http_server.Net.Socket.{Socket}
use small_http_server.Stack.{Stack, get_socket}
use small_http_server.Worker.Serve.{
  looping, died, Ending, Turn, loop_test, after_serve, serve, serve_request, worker_turn,
}
use small_http_server.Program
use small_http_server.Program.{
  Status, running, ended, status_after, accept, finish, create_threads, thread_count, held, to_list,
}
use small_http_server.Threads.{
  Thread, fetching, fetched, serving, waiting, Move, Program, has_stack, add_client, test_stop,
  after_request, begin_serving, advance, put_back, Step, adds, tests, moves, Reach, here, next,
}
use small_http_server.Threads.Joins.{trans_Reach}

abbrev pub thread_of : {A : Type 0} → Status → Thread A
thread_of (running polls) = fetching
thread_of ended = Thread.ended

abbrev pub embed : {A : Type 0} → Program.Program A → Program A
embed p = record {
  main = waiting;
  stopping = false;
  stack = p.stack;
  threads = map thread_of p.workers;
  accepted = p.accepted;
  closed = p.closed;
}

module _ (open_file : Buffer → Option Buffer) (cs : Socket) (directory : Buffer) (stop : ℕ → Bool)
    (never : (k : ℕ) → stop k ≡ false) where
  open cs use {State, set_timeout, close}

  abbrev thread_after : Ending open_file cs directory stop → Thread State
  thread_after e = thread_of (status_after open_file cs directory stop e)

  not-after_serve-none :
      (turn : Turn open_file cs directory stop)
      → ¬ (after_serve open_file cs directory stop none ≡ some turn)
  unfolding after_serve
  not-after_serve-none turn e = cc

  serving_false :
      (stack : Stack State) (s : State)
      → advance open_file cs directory false stack (serving false s)
        ≡ some (record { thread = Thread.looping; stack = stack; closed = some (close s) })
  unfolding advance
  serving_false stack s = refl

  -- One thread, between the others, in a program in which no stop is requested.
  module _ (before after : List (Thread State)) (accepted : ℕ) where
    abbrev at : Thread State → Stack State → List State → Program State
    at t stack closed = record {
      main = waiting;
      stopping = false;
      stack = stack;
      threads = before ++ t ∷ after;
      accepted = accepted;
      closed = closed;
    }

    one_move :
        (t : Thread State) (stack : Stack State) (closed : List State) (m : Move State)
        → advance open_file cs directory false stack t ≡ some m
        → Step open_file cs directory
            (at t stack closed)
            (at m.thread m.stack (to_list m.closed ++ closed))
    unfolding put_back has_stack
    one_move t stack closed m run = moves before after t m refl refl run refl

    abbrev Arrives :
        Thread State → Stack State → List State → Turn open_file cs directory stop → Type 0
    Arrives t stack closed turn =
        Reach open_file cs directory (at t stack closed)
          (at (thread_after turn.ending) stack (to_list turn.closed ++ closed))

    Arrives-known :
        (t : Thread State) (stack : Stack State) (closed : List State)
        (known turn : Turn open_file cs directory stop)
        → some known ≡ some turn
        → Arrives t stack closed known
        → Arrives t stack closed turn
    Arrives-known t stack closed known turn e r =
        let same : known ≡ turn = cc e in subst (Arrives t stack closed) same r

    -- The way from the end of the inner loop to the next call of GetSocket.
    leaves :
        (t : Thread State) (s : State) (polls : ℕ) (stack : Stack State) (closed : List State)
        (turn : Turn open_file cs directory stop)
        → advance open_file cs directory false stack t
          ≡ some (record { thread = Thread.looping; stack = stack; closed = some (close s) })
        → after_serve open_file cs directory stop (some (ok polls, s)) ≡ some turn
        → Arrives t stack closed turn
    unfolding after_serve loop_test status_after advance
    leaves t s polls stack closed turn run e =
        Arrives-known t stack closed
          (record { ending = looping (polls + 1); closed = some (close s) }) turn
          (rw (never polls) at e)
          (next (next here (one_move t stack closed _ run))
            (one_move Thread.looping stack (close s ∷ closed) _ refl))

    abbrev Realised :
        Thread State → Stack State → List State → Option (Turn open_file cs directory stop) → Type 0
    Realised t stack closed o =
        (turn : Turn open_file cs directory stop) → o ≡ some turn → Arrives t stack closed turn

    next_request :
        (fuel polls : ℕ) (s : State) (stack : Stack State) (closed : List State)
        (r : Option (Result (Option Bool) × State))
        → serve_request open_file cs directory s ≡ r
        → ((is_ka : Bool) (s' : State)
            → Realised (serving is_ka s') stack closed (
                after_serve open_file cs directory stop
                  (serve open_file cs directory stop fuel is_ka (polls + 1) s')))
        → Realised (serving true s) stack closed (
            after_serve open_file cs directory stop
              (serve open_file cs directory stop (suc fuel) true polls s))
    unfolding serve after_serve advance after_request status_after
    next_request fuel polls s stack closed none run later turn e = cc (rw (never polls, run) at e)
    next_request fuel polls s stack closed (some (throw x, s')) run later turn e =
        Arrives-known (serving true s) stack closed
          (record { ending = died x; closed = some (close s') }) turn (rw (never polls, run) at e)
          (next here (
            one_move (serving true s) stack closed
              (record { thread = Thread.ended; stack = stack; closed = some (close s') })
              (rw run refl)))
    next_request fuel polls s stack closed (some (ok none, s')) run later turn e =
        leaves (serving true s) s' (polls + 1) stack closed turn (rw run refl)
          (rw (never polls, run) at e)
    next_request fuel polls s stack closed (some (ok (some is_ka), s')) run later turn e =
        trans_Reach open_file cs directory
          (next here (
            one_move (serving true s) stack closed
              (record { thread = serving is_ka s'; stack = stack; closed = none }) (rw run refl)))
          (later is_ka s' turn (rw (never polls, run) at e))

    serving_round :
        (fuel polls : ℕ) (is_ka : Bool) (s : State) (stack : Stack State) (closed : List State)
        → Realised (serving is_ka s) stack closed (
            after_serve open_file cs directory stop
              (serve open_file cs directory stop fuel is_ka polls s))
    unfolding serve
    serving_round zero polls is_ka s stack closed turn e = absurd (not-after_serve-none turn e)
    serving_round (suc fuel) polls false s stack closed turn e =
        leaves (serving false s) s polls stack closed turn (serving_false stack s) e
    serving_round (suc fuel) polls true s stack closed turn e =
        next_request fuel polls s stack closed (serve_request open_file cs directory s) refl
          (λ is_ka s'. serving_round fuel (polls + 1) is_ka s' stack closed) turn e

    -- From GetSocket's return to the next call.
    fetched_round :
        (fuel polls : ℕ) (socket : Option State) (stack : Stack State) (closed : List State)
        → Realised
            (fetched socket)
            stack
            closed
            (worker_turn open_file cs directory stop fuel polls socket)
    unfolding worker_turn advance begin_serving loop_test status_after
    fetched_round fuel polls none stack closed turn e =
        Arrives-known (fetched none) stack closed
          (record { ending = looping (polls + 1 + 1); closed = none }) turn
          (rw (never polls, never (polls + 1)) at e)
          (next (next here (one_move (fetched none) stack closed _ refl))
            (one_move Thread.looping stack closed _ refl))
    fetched_round fuel polls (some s) stack closed turn e =
        trans_Reach open_file cs directory
          (next here (one_move (fetched (some s)) stack closed _ refl))
          (serving_round fuel (polls + 1) true (set_timeout s) stack closed turn
            (rw (never polls) at e))

    round_Reach :
        (fuel polls : ℕ) (stack : Stack State) (closed : List State)
        (turn : Turn open_file cs directory stop)
        → worker_turn open_file cs directory stop fuel (polls + 1) (get_socket (stop polls) stack).0
          ≡ some turn
        → Reach open_file cs directory (at fetching stack closed) (
            at
              (thread_after turn.ending)
              (get_socket (stop polls) stack).1
              (to_list turn.closed ++ closed))
    unfolding advance
    round_Reach fuel polls stack closed turn e =
        trans_Reach open_file cs directory
          (next here (
            one_move fetching stack closed
              (record {
                thread = fetched (get_socket (stop polls) stack).0;
                stack = (get_socket (stop polls) stack).1;
                closed = none;
              })
              (rw (never polls) refl)))
          (fetched_round fuel (polls + 1) (get_socket (stop polls) stack).0
            (get_socket (stop polls) stack).1 closed turn e)

  -- Each step of the program whose rounds are single steps is a row of steps of the interleaved one.
  Step-Reach :
      (p q : Program.Program State)
      → Program.Step open_file cs directory stop p q
      → Reach open_file cs directory (embed p) (embed q)
  unfolding accept add_client test_stop finish
  Step-Reach p q (Program.accepts socket e) =
      subst (λ (r : Program.Program State). Reach open_file cs directory (embed p) (embed r))
        (sym e) (next (next here (adds socket refl refl)) (tests refl refl))
  Step-Reach p q (Program.takes_turn before after polls fuel turn w run e) =
      subst (λ (r : Program.Program State). Reach open_file cs directory (embed p) (embed r))
        (sym e)
        (rw
          (
            w,
            map-append thread_of before (running polls ∷ after),
            map-append thread_of before
                (status_after open_file cs directory stop turn.ending ∷ after),
          )
          (round_Reach (map thread_of before) (map thread_of after) p.accepted fuel polls p.stack
            p.closed turn run))

  -- Every run of the program whose rounds are single steps, while no stop is requested, is a run of
  -- the interleaved program: there too it leads to the same stack, threads and connections.
  pub Reach-Reach :
      (p q : Program.Program State)
      → Program.Reach open_file cs directory stop p q
      → Reach open_file cs directory (embed p) (embed q)
  Reach-Reach p q Program.here = here
  Reach-Reach p r (Program.next {q} before s) =
      trans_Reach open_file cs directory (Reach-Reach p q before) (Step-Reach q r s)
