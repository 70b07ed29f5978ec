-- ===== src/Threads/Shutdown.antt =====
-- What a stop does to the threads and to the main thread: Worker.cpp and main.cpp after sig_handler.
use small_http_server.Base.{
  ℕ, ◌+◌, ◌*◌, ◌≤◌, ◌≡◌, refl, sym, ap, subst, true, false, List, [], ◌∷◌, ◌++◌, Option, some, none,
  arith, length,
}
use small_http_server.Text.{Buffer}
use small_http_server.Net.Socket.{Socket}
use small_http_server.Stack.{Stack, get_socket}
use small_http_server.Threads.{
  Thread, fetching, fetched, serving, looping, ended, Move, Program, request_stop, add_client,
  test_stop, put_back, leave, advance, signalled, adds, tests, joins, throws, moves, Reach, here,
  next,
}

-- How many steps a thread has left at most, where a stop has been requested.
abbrev pub steps_left : {A : Type 0} → Thread A → ℕ
steps_left fetching = 2
steps_left (fetched socket) = 1
steps_left (serving is_ka s) = 2
steps_left looping = 1
steps_left ended = 0

abbrev pub total_left : {A : Type 0} → List (Thread A) → ℕ
total_left [] = 0
total_left (t ∷ ts) = steps_left t + total_left ts

total_left-append :
    {A : Type 0} (before after : List (Thread A)) (t : Thread A)
    → total_left (before ++ t ∷ after) ≡ steps_left t + total_left (before ++ after)
total_left-append [] after t = refl
total_left-append (b ∷ before) after t = omega (arith, total_left-append before after t)

total_left-le : {A : Type 0} (ts : List (Thread A)) → total_left ts ≤ 2 * length ts
total_left-le [] = omega arith
total_left-le (fetching ∷ ts) = omega (arith, total_left-le ts)
total_left-le (fetched socket ∷ ts) = omega (arith, total_left-le ts)
total_left-le (serving is_ka s ∷ ts) = omega (arith, total_left-le ts)
total_left-le (looping ∷ ts) = omega (arith, total_left-le ts)
total_left-le (ended ∷ ts) = omega (arith, total_left-le ts)

module _ (open_file : Buffer → Option Buffer) (cs : Socket) (directory : Buffer) where
  open cs use {State}

  abbrev Uses : Thread State → Option (Move State) → Type 0
  Uses t none = steps_left t ≡ 0
  Uses t (some m) = steps_left m.thread + 1 ≡ steps_left t

  -- After a stop a thread's step is one of the steps left.
  advance-Uses :
      (stack : Stack State) (t : Thread State)
      → Uses t (advance open_file cs directory true stack t)
  unfolding advance get_socket
  advance-Uses stack fetching = omega arith
  advance-Uses stack (fetched socket) = omega arith
  advance-Uses stack (serving false s) = omega arith
  advance-Uses stack (serving true s) = omega arith
  advance-Uses stack looping = omega arith
  advance-Uses stack ended = refl

  -- How many of a run's steps are steps of threads.
  abbrev pub thread_steps : {p q : Program State} → Reach open_file cs directory p q → ℕ
  thread_steps here = 0
  thread_steps (next r (moves _ _ _ _ _ _ _ _)) = 1 + thread_steps r
  thread_steps (next r _) = thread_steps r

  abbrev Spent : Program State → Program State → ℕ → Type 0
  Spent p q n = (q.stopping ≡ true) × (n + total_left q.threads ≤ total_left p.threads)

  put_back-Spent :
      (o p : Program State) (n : ℕ) (before after : List (Thread State)) (t : Thread State)
      (m : Move State)
      → p.threads ≡ before ++ t ∷ after
      → advance open_file cs directory p.stopping p.stack t ≡ some m
      → Spent o p n
      → Spent o (put_back open_file cs directory before after m p) (1 + n)
  unfolding put_back
  put_back-Spent o p n before after t m at run (stopped, h) =
      let used : steps_left m.thread + 1 ≡ steps_left t = subst (Uses t) run (
        subst (λ b. Uses t (advance open_file cs directory b p.stack t)) (sym stopped)
          (advance-Uses p.stack t)) in
      (
        stopped,
        omega (
          arith,
          used,
          h,
          ap total_left at,
          total_left-append before after t,
          total_left-append before after m.thread,
        ),
      )

  Reach-Spent :
      (p q : Program State) (r : Reach open_file cs directory p q)
      → p.stopping ≡ true
      → Spent p q (thread_steps r)
  unfolding request_stop add_client test_stop leave
  Reach-Spent p q here h = (h, omega arith)
  Reach-Spent p q (next {q = m} r (signalled e)) h =
      subst (λ x. Spent p x (thread_steps r)) (sym e) (refl, (Reach-Spent p m r h).1)
  Reach-Spent p q (next {q = m} r (adds socket at e)) h =
      subst (λ x. Spent p x (thread_steps r)) (sym e) (Reach-Spent p m r h)
  Reach-Spent p q (next {q = m} r (tests at e)) h =
      subst (λ x. Spent p x (thread_steps r)) (sym e) (Reach-Spent p m r h)
  Reach-Spent p q (next {q = m} r (joins at all e)) h =
      subst (λ x. Spent p x (thread_steps r)) (sym e) (Reach-Spent p m r h)
  Reach-Spent p q (next {q = m} r (throws at e)) h =
      subst (λ x. Spent p x (thread_steps r)) (sym e) (Reach-Spent p m r h)
  Reach-Spent p q (next {q = m} r (moves before after t move there at run e)) h =
      subst (λ x. Spent p x (1 + thread_steps r)) (sym e)
        (put_back-Spent p m (thread_steps r) before after t move at run (Reach-Spent p m r h))

  -- Once a stop has been requested, the threads take at most twice as many steps as there are
  -- threads, in every interleaving.
  pub thread_steps-le :
      (p q : Program State) (r : Reach open_file cs directory p q)
      → p.stopping ≡ true
      → thread_steps r ≤ 2 * length p.threads
  thread_steps-le p q r h = omega (arith, (Reach-Spent p q r h).1, total_left-le p.threads)
