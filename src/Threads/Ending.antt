-- ===== src/Threads/Ending.antt =====
-- How the main thread's function ends: main.cpp from its loop on.
use small_http_server.Base.{
  ℕ, zero, suc, ◌+◌, ◌≡◌, refl, sym, ap, subst, Bool, true, false, List, [], ◌∷◌, ◌++◌, Option,
  arith, length, replicate, All, if◌then◌else◌,
}
use small_http_server.Text.{Buffer}
use small_http_server.Net.Socket.{Socket}
use small_http_server.Stack.{Stack}
use small_http_server.Program.{thread_count}
use small_http_server.Program.Conservation.{live}
use small_http_server.Threads.{
  Thread, fetching, waiting, testing, joining, returned, threw, Main, has_stack, Program, start,
  request_stop, add_client, test_stop, put_back, leave, HasEnded, Step, signalled, adds, tests,
  joins, throws, moves, Reach, here, next,
}
use small_http_server.Threads.Lifecycle.{holds, in_service, life, IsComplete, Events-IsComplete}
use small_http_server.Threads.Simulation.{Reach-Events}

in_service-fetching : (A : Type 0) (n : ℕ) → in_service {A = A} (replicate n fetching) ≡ 0
in_service-fetching A zero = refl
in_service-fetching A (suc n) = omega (arith, in_service-fetching A n)

start-IsComplete : (A : Type 0) → IsComplete (life {A = A} start)
unfolding start
start-IsComplete A = omega (arith, in_service-fetching A thread_count)

module _ (open_file : Buffer → Option Buffer) (cs : Socket) (directory : Buffer) where
  open cs use {State}

  in_service-HasEnded :
      (threads : List (Thread State))
      → All (HasEnded open_file cs directory) threads
      → in_service threads ≡ 0
  in_service-HasEnded [] h = refl
  in_service-HasEnded (t ∷ ts) (e, h) = omega (arith, ap holds e, in_service-HasEnded ts h)

  -- What holds where the main thread stands: behind the joins every thread has ended, and the stack
  -- is gone once its block is left.
  abbrev Left : Main → List (Thread State) → Stack State → Type 0
  Left returned threads stack = All (HasEnded open_file cs directory) threads × (stack ≡ [])
  Left threw threads stack = stack ≡ []
  Left _ threads stack = Unit

  abbrev IsLeft : Program State → Type 0
  IsLeft p = Left p.main p.threads p.stack

  has_stack-Left :
      (main : Main) (threads : List (Thread State)) (stack : Stack State)
      → has_stack main ≡ true
      → Left main threads stack
  unfolding has_stack
  has_stack-Left waiting threads stack h = tt
  has_stack-Left testing threads stack h = tt
  has_stack-Left joining threads stack h = tt
  has_stack-Left returned threads stack h = cc
  has_stack-Left threw threads stack h = cc

  test_stop-IsLeft :
      (stopping : Bool) (threads : List (Thread State)) (stack : Stack State)
      → Left (if stopping then joining else waiting) threads stack
  test_stop-IsLeft true threads stack = tt
  test_stop-IsLeft false threads stack = tt

  Step-IsLeft : (p q : Program State) → Step open_file cs directory p q → IsLeft p → IsLeft q
  unfolding request_stop add_client test_stop put_back leave
  Step-IsLeft p q (signalled e) h = subst IsLeft (sym e) h
  Step-IsLeft p q (adds socket at e) h = subst IsLeft (sym e) tt
  Step-IsLeft p q (tests at e) h =
      subst IsLeft (sym e) (test_stop-IsLeft p.stopping p.threads p.stack)
  Step-IsLeft p q (joins at all e) h = subst IsLeft (sym e) (all, refl)
  Step-IsLeft p q (throws at e) h = subst IsLeft (sym e) refl
  Step-IsLeft p q (moves before after t m there at run e) h =
      subst IsLeft (sym e) (has_stack-Left p.main (before ++ m.thread ∷ after) m.stack there)

  start-Reach-IsLeft : (q : Program State) → Reach open_file cs directory start q → IsLeft q
  unfolding start
  start-Reach-IsLeft q here = tt
  start-Reach-IsLeft q (next {q = p} before s) = Step-IsLeft p q s (start-Reach-IsLeft p before)

  -- In every interleaving: where the main thread has come to the end of its block, every thread has
  -- ended and every connection that was accepted has been closed. Where an exception of WaitClients has ended
  -- the block, the connections that are not closed are those that a thread still holds.
  pub start-Reach-end :
      (q : Program State)
      → Reach open_file cs directory start q
      → ((q.main ≡ returned)
          → All (HasEnded open_file cs directory) q.threads × (q.accepted ≡ length q.closed))
        × ((q.main ≡ threw) → q.accepted ≡ in_service q.threads + length q.closed)
  start-Reach-end q r = (returned_case, threw_case)
    where
      total : IsComplete (life q)
      total =
          Events-IsComplete (Reach-Events open_file cs directory start q r) (start-IsComplete State)

      left : IsLeft q
      left = start-Reach-IsLeft q r

      returned_case :
          q.main ≡ returned
          → All (HasEnded open_file cs directory) q.threads × (q.accepted ≡ length q.closed)
      returned_case e =
          let (all, gone) : Left returned q.threads q.stack =
            subst (λ main. Left main q.threads q.stack) e left in
          (all, omega (arith, total, ap live gone, in_service-HasEnded q.threads all))

      threw_case : q.main ≡ threw → q.accepted ≡ in_service q.threads + length q.closed
      threw_case e =
          let gone : q.stack ≡ [] = subst (λ main. Left main q.threads q.stack) e left in
          omega (arith, total, ap live gone)
