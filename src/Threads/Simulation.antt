-- ===== src/Threads/Simulation.antt =====
-- The steps of the threads and of the main thread are events of the abstract program.
use small_http_server.Base.{
  ℕ, zero, suc, ◌+◌, ◌≡◌, refl, sym, ap, subst, Bool, true, false, List, [], ◌∷◌, ◌++◌, Option,
  none, some, arith, length, length-append,
}
use small_http_server.Exceptions.{Result, ok, throw}
use small_http_server.Text.{Buffer}
use small_http_server.Net.Socket.{Socket}
use small_http_server.Stack.{Stack, add_socket, get_socket}
use small_http_server.Worker.Serve.{serve_request}
use small_http_server.Program.{held, to_list}
use small_http_server.Program.Conservation.{live, live-get_socket}
use small_http_server.Threads.Lifecycle.{
  holds, in_service, arrives, taken, served, discarded, Events, none_yet, followed, life,
  trans_Events, same_life,
}
use small_http_server.Threads.{
  returned, threw, Thread, fetching, fetched, serving, looping, ended, Main, Program, Move,
  request_stop, add_client, test_stop, after_request, begin_serving, advance, put_back,
  destroy_stack, leave, Step, signalled, adds, tests, joins, throws, moves, Reach, here, next,
}

in_service-append :
    {A : Type 0} (before after : List (Thread A)) (t : Thread A)
    → in_service (before ++ t ∷ after) ≡ holds t + in_service (before ++ after)
in_service-append [] after t = refl
in_service-append (b ∷ before) after t = omega (arith, in_service-append before after t)

-- What a thread's step does: nothing, or one of the middle events.
data Effect {A : Type 0} (stack : Stack A) (thread : Thread A) (m : Move A) : Type 0 where
  none_done :
      live m.stack ≡ live stack
      → holds m.thread ≡ holds thread
      → m.closed ≡ none
      → Effect stack thread m
  one_taken :
      live stack ≡ live m.stack + 1
      → holds thread ≡ 0
      → holds m.thread ≡ 1
      → m.closed ≡ none
      → Effect stack thread m
  one_closed :
      live m.stack ≡ live stack
      → holds thread ≡ 1
      → holds m.thread ≡ 0
      → length (to_list m.closed) ≡ 1
      → Effect stack thread m

add_move : (n c : ℕ) → suc n + c ≡ n + (1 + c)
add_move n c = omega arith

module _ (open_file : Buffer → Option Buffer) (cs : Socket) (directory : Buffer) where
  open cs use {State}

  abbrev HasEffect : Stack State → Thread State → Option (Move State) → Type 0
  HasEffect stack thread none = Unit
  HasEffect stack thread (some m) = Effect stack thread m

  after_request-Effect :
      (stack : Stack State) (is_ka : Bool) (s : State) (r : Option (Result (Option Bool) × State))
      → HasEffect stack (serving is_ka s) (after_request open_file cs directory stack r)
  unfolding after_request
  after_request-Effect stack is_ka s none = tt
  after_request-Effect stack is_ka s (some (ok none, s')) = one_closed refl refl refl refl
  after_request-Effect stack is_ka s (some (ok (some k), s')) = none_done refl refl refl
  after_request-Effect stack is_ka s (some (throw x, s')) = one_closed refl refl refl refl

  fetched-Effect :
      (stack rest : Stack State) (socket : Option State)
      → live stack ≡ held socket + live rest
      → Effect stack fetching (record { thread = fetched socket; stack = rest; closed = none })
  fetched-Effect stack rest none h = none_done (omega arith) refl refl
  fetched-Effect stack rest (some s) h = one_taken (omega arith) refl refl refl

  advance-Effect :
      (stopping : Bool) (stack : Stack State) (thread : Thread State)
      → HasEffect stack thread (advance open_file cs directory stopping stack thread)
  unfolding advance begin_serving
  advance-Effect stopping stack fetching =
      fetched-Effect stack (get_socket stopping stack).1 (get_socket stopping stack).0
        (live-get_socket stopping stack)
  advance-Effect true stack (fetched none) = none_done refl refl refl
  advance-Effect true stack (fetched (some s)) = one_closed refl refl refl refl
  advance-Effect false stack (fetched none) = none_done refl refl refl
  advance-Effect false stack (fetched (some s)) = none_done refl refl refl
  advance-Effect stopping stack (serving false s) = one_closed refl refl refl refl
  advance-Effect true stack (serving true s) = one_closed refl refl refl refl
  advance-Effect false stack (serving true s) =
      after_request-Effect stack true s (serve_request open_file cs directory s)
  advance-Effect true stack looping = none_done refl refl refl
  advance-Effect false stack looping = none_done refl refl refl
  advance-Effect stopping stack ended = tt

  in_service-put_back :
      (p : Program State) (before after : List (Thread State)) (t : Thread State) (m : Move State)
      → p.threads ≡ before ++ t ∷ after
      → in_service (before ++ m.thread ∷ after) + holds t ≡ in_service p.threads + holds m.thread
  in_service-put_back p before after t m at = omega (
    arith,
    ap in_service at,
    in_service-append before after t,
    in_service-append before after m.thread,
  )

  Effect-Events :
      (p : Program State) (before after : List (Thread State)) (t : Thread State) (m : Move State)
      → in_service (before ++ m.thread ∷ after) + holds t ≡ in_service p.threads + holds m.thread
      → Effect p.stack t m
      → Events (life p) (life (put_back open_file cs directory before after m p))
  unfolding put_back
  Effect-Events p before after t m n (none_done l h c) =
      same_life _ _ refl l (omega (arith, n, h)) (rw c refl)
  Effect-Events p before after t m n (one_taken l h h' c) =
      followed none_yet (taken refl l (omega (arith, n, h, h')) (rw c refl))
  Effect-Events p before after t m n (one_closed l h h' c) = followed none_yet (
      served refl l (omega (arith, n, h, h'))
        (omega (arith, c, length-append (to_list m.closed) p.closed)))

  add_client-Events :
      (socket : Option State) (p : Program State) → Events (life p) (life (add_client socket p))
  unfolding add_client add_socket
  add_client-Events none p = same_life _ _ (omega arith) (omega arith) refl refl
  add_client-Events (some s) p = followed none_yet (arrives refl (omega arith) refl refl)

  length-destroy_stack :
      (stack : Stack State) → length (destroy_stack open_file cs directory stack) ≡ live stack
  unfolding destroy_stack
  length-destroy_stack [] = refl
  length-destroy_stack (none ∷ stack) = omega (arith, length-destroy_stack stack)
  length-destroy_stack (some s ∷ stack) = omega (arith, length-destroy_stack stack)

  discard_all :
      (a n s c : ℕ)
      → Events
          (record { accepted = a; waiting = n; in_service = s; closed = c })
          (record { accepted = a; waiting = 0; in_service = s; closed = n + c })
  discard_all a zero s c = same_life _ _ refl refl refl (omega arith)
  discard_all a (suc n) s c =
      trans_Events
        (followed {n = record { accepted = a; waiting = n; in_service = s; closed = 1 + c }}
          none_yet (discarded refl (omega arith) refl (omega arith)))
        (rw (add_move n c) (discard_all a n s (1 + c)))

  leave-Events :
      (main : Main) (p : Program State)
      → Events (life p) (life (leave open_file cs directory main p))
  unfolding leave
  leave-Events main p =
      subst (Events (life p))
        (cc (
          length-append (destroy_stack open_file cs directory p.stack) p.closed,
          length-destroy_stack p.stack,
        ))
        (discard_all p.accepted (live p.stack) (in_service p.threads) (length p.closed))

  -- A step of the program is a row of events of the abstract one.
  Step-Events : (p q : Program State) → Step open_file cs directory p q → Events (life p) (life q)
  unfolding request_stop test_stop
  Step-Events p q (signalled e) = subst (λ r. Events (life p) (life r)) (sym e) none_yet
  Step-Events p q (adds socket at e) =
      subst (λ r. Events (life p) (life r)) (sym e) (add_client-Events socket p)
  Step-Events p q (tests at e) = subst (λ r. Events (life p) (life r)) (sym e) none_yet
  Step-Events p q (joins at all e) =
      subst (λ r. Events (life p) (life r)) (sym e) (leave-Events returned p)
  Step-Events p q (throws at e) =
      subst (λ r. Events (life p) (life r)) (sym e) (leave-Events threw p)
  Step-Events p q (moves before after t m there at run e) =
      subst (λ r. Events (life p) (life r)) (sym e)
        (Effect-Events p before after t m (in_service-put_back p before after t m at)
          (subst (HasEffect p.stack t) run (advance-Effect p.stopping p.stack t)))

  -- Whatever the interleaving of the threads, a run of the program is, seen from outside, a run of
  -- the abstract program: each connection arrives, is taken into service by one thread and is
  -- closed, or is closed where it waits.
  pub Reach-Events :
      (p q : Program State) → Reach open_file cs directory p q → Events (life p) (life q)
  Reach-Events p q here = none_yet
  Reach-Events p r (next {q} before s) = trans_Events (Reach-Events p q before) (Step-Events q r s)
