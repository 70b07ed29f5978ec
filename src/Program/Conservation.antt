-- ===== src/Program/Conservation.antt =====
-- The connections of main.cpp and Worker.cpp, counted: accepted, on the stack, and closed.
use small_http_server.Base.{
  ℕ, ◌+◌, ◌≡◌, refl, sym, subst, inl, inr, Bool, true, false, List, [], ◌∷◌, Option, none, some,
  arith, length, length-append, Bool-cases,
}
use small_http_server.Exceptions.{Result, ok, throw}
use small_http_server.Text.{Buffer}
use small_http_server.Net.Socket.{Socket}
use small_http_server.Stack.{Stack, add_socket, get_socket}
use small_http_server.Worker.Serve.{Turn, after_serve, serve, worker_turn}
use small_http_server.Program.{
  Status, Program, held, to_list, start, accept, finish, Step, accepts, takes_turn, Reach, here,
  next,
}

-- The connections on the stack; null pointers do not count.
abbrev pub live {ℓ} : {A : Type ℓ} → Stack A → ℕ
live [] = 0
live (s ∷ stack) = held s + live stack

abbrev pub IsConserved : {A : Type 0} → Program A → Type 0
IsConserved p = p.accepted ≡ live p.stack + length p.closed

pub live-get_socket {ℓ} :
    {A : Type ℓ} (stop : Bool) (stack : Stack A)
    → live stack ≡ held (get_socket stop stack).0 + live (get_socket stop stack).1
unfolding get_socket
live-get_socket true stack = omega arith
live-get_socket false [] = omega arith
live-get_socket false (s ∷ stack) = refl

module _ (open_file : Buffer → Option Buffer) (cs : Socket) (directory : Buffer)
    (stop : ℕ → Bool) where
  open cs use {State}

  abbrev pub ClosesOf : ℕ → Option (Turn open_file cs directory stop) → Type 0
  ClosesOf n o =
      (turn : Turn open_file cs directory stop) → o ≡ some turn → length (to_list turn.closed) ≡ n

  after_serve-Closes :
      (r : Option (Result ℕ × State)) → ClosesOf 1 (after_serve open_file cs directory stop r)
  unfolding after_serve
  after_serve-Closes none turn e = cc
  after_serve-Closes (some (ok polls, s)) turn e = ground arith
  after_serve-Closes (some (throw x, s)) turn e = ground arith

  pub worker_turn-Closes :
      (fuel polls : ℕ) (socket : Option State)
      → ClosesOf (held socket) (worker_turn open_file cs directory stop fuel polls socket)
  unfolding worker_turn
  worker_turn-Closes fuel polls none turn e = ground arith
  worker_turn-Closes fuel polls (some s) turn e = elim (Bool-cases (stop polls)) [
    | inl stopped ↦ ground arith
    | inr go ↦
        after_serve-Closes
          (serve open_file cs directory stop fuel true (polls + 1) (cs.set_timeout s)) turn
          (rw go at e)
  ]

  finish-IsConserved :
      (p : Program State) (before after : List Status) (polls fuel : ℕ)
      (turn : Turn open_file cs directory stop)
      → worker_turn open_file cs directory stop fuel (polls + 1) (get_socket (stop polls) p.stack).0
        ≡ some turn
      → IsConserved p
      → IsConserved (finish open_file cs directory stop before polls after turn p)
  unfolding finish
  finish-IsConserved p before after polls fuel turn e h = omega (
    arith,
    h,
    live-get_socket (stop polls) p.stack,
    worker_turn-Closes fuel (polls + 1) (get_socket (stop polls) p.stack).0 turn e,
    length-append (to_list turn.closed) p.closed,
  )

  accept-IsConserved :
      (p : Program State) (socket : Option State)
      → IsConserved p
      → IsConserved (accept open_file cs directory stop socket p)
  unfolding accept add_socket
  accept-IsConserved p socket h = omega (arith, h)

  -- Every step keeps the count: a connection that was accepted is on the stack until a worker takes
  -- it, and the worker closes it in the same round, whatever happens in between.
  pub Step-IsConserved :
      {p q : Program State} → Step open_file cs directory stop p q → IsConserved p → IsConserved q
  Step-IsConserved {p} (accepts socket e) h =
      subst IsConserved (sym e) (accept-IsConserved p socket h)
  Step-IsConserved {p} (takes_turn before after polls fuel turn w t e) h =
      subst IsConserved (sym e) (finish-IsConserved p before after polls fuel turn t h)

  Reach-IsConserved :
      {p q : Program State} → Reach open_file cs directory stop p q → IsConserved p → IsConserved q
  Reach-IsConserved here h = h
  Reach-IsConserved (next r s) h = Step-IsConserved s (Reach-IsConserved r h)

  -- In every run of the program from its start, the connections that have been accepted are as
  -- many as those that are on the stack and those that the workers have closed.
  pub start-IsConserved :
      (q : Program State) → Reach open_file cs directory stop start q → IsConserved q
  unfolding start
  start-IsConserved q r = Reach-IsConserved r refl
