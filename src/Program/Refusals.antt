-- ===== src/Program/Refusals.antt =====
-- What requests that `Parse` refuses do to the threads of main.cpp.
use small_http_server.Base.{
  ℕ, ◌+◌, ◌≡◌, refl, sym, ap, subst, ◌∙◌, Bool, false, List, [], ◌∷◌, ◌++◌, Option, some, arith,
  length, map, All, All-append, All-append_right, append_assoc, append-nil,
}
use small_http_server.Exceptions.{Exception}
use small_http_server.Text.{Buffer}
use small_http_server.Http.Parser.Request.{Refused}
use small_http_server.Net.Socket.{Socket}
use small_http_server.Stack.{Stack, add_socket, get_socket}
use small_http_server.Worker.Serve.{died, Turn, worker_turn}
use small_http_server.Worker.Requests.{Arrived, worker_turn-Refused}
use small_http_server.Program.{
  Status, running, ended, Program, accept, finish, Step, accepts, takes_turn, Reach, here, next,
}

get_socket_top {ℓ} :
    {A : Type ℓ} (stop : Bool) (stack : Stack A) (s : Option A) (rest : Stack A)
    → stop ≡ false
    → stack ≡ s ∷ rest
    → get_socket stop stack ≡ (s, rest)
unfolding get_socket
get_socket_top stop stack s rest go e = rw (go, e)

abbrev pub HasEnded : Status → Type 0
HasEnded w = w ≡ ended

running-not-HasEnded : (polls : ℕ) → ¬ HasEnded (running polls)
running-not-HasEnded polls e = cc

module _ (open_file : Buffer → Option Buffer) (cs : Socket) (directory : Buffer)
    (stop : ℕ → Bool) where
  open cs use {State, set_timeout, close}

  -- What a program in which every thread has ended still does.
  abbrev pub OnlyAccepts : Program State → Program State → Type 0
  OnlyAccepts p q =
      (added : Stack State) × (q.stack ≡ added ++ p.stack)
      × (q.workers ≡ p.workers)
      × (q.closed ≡ p.closed)

  OnlyAccepts-Step :
      (p q r : Program State)
      → All HasEnded p.workers
      → OnlyAccepts p q
      → Step open_file cs directory stop q r
      → OnlyAccepts p r
  unfolding accept add_socket
  OnlyAccepts-Step p q r h (added, s, w, c) (accepts socket e) = (
    socket ∷ added,
    ap (λ (x : Program State). x.stack) e ∙ ap (◌∷◌ socket) s,
    ap (λ (x : Program State). x.workers) e ∙ w,
    ap (λ (x : Program State). x.closed) e ∙ c,
  )
  OnlyAccepts-Step p q r h (added, s, w, c) (takes_turn before after polls fuel turn at t e) =
      absurd (
        running-not-HasEnded polls
          (All-append_right HasEnded before (running polls ∷ after)
            (subst (All HasEnded) (sym w ∙ at) h)).0)

  -- After all threads have ended, connections are accepted, and none of them is ever served or
  -- closed.
  pub Reach-OnlyAccepts :
      (p q : Program State)
      → All HasEnded p.workers
      → Reach open_file cs directory stop p q
      → OnlyAccepts p q
  Reach-OnlyAccepts p q h here = ([], refl, refl, refl)
  Reach-OnlyAccepts p r h (next {q} before s) =
      OnlyAccepts-Step p q r h (Reach-OnlyAccepts p q h before) s

  -- A connection whose first request is refused.
  pub record IsRefused (s : State) : Type 0 where
    pub buffer : Buffer
    pub after : State
    pub reason : Exception
    pub arrived : Arrived open_file cs directory (set_timeout s) buffer after
    pub refused : Refused buffer reason

  module _ (never : (k : ℕ) → stop k ≡ false) (p₀ : Program State) where
    -- The threads `done` have ended; those of `polls` are left, and so are their connections.
    record Left (p : Program State) (done : List Status) (polls : List ℕ) (conns : List State)
        (rest : Stack State) : Type 0 where
      reached : Reach open_file cs directory stop p₀ p
      threads : p.workers ≡ done ++ map running polls
      all_done : All HasEnded done
      waiting : p.stack ≡ map some conns ++ rest

    top_ends :
        (p : Program State) (done : List Status) (n : ℕ) (polls : List ℕ) (s : State)
        (conns : List State) (rest : Stack State)
        → IsRefused s
        → Left p done (n ∷ polls) (s ∷ conns) rest
        → (q : Program State) × Left q (done ++ ended ∷ []) polls conns rest
    unfolding finish
    top_ends p done n polls s conns rest bad l =
        let turn : Turn open_file cs directory stop = record {
          ending = died bad.reason;
          closed = some (close bad.after);
        } in
        let top : get_socket (stop n) p.stack ≡ (some s, map some conns ++ rest) =
          get_socket_top (stop n) p.stack (some s) _ (never n) l.waiting in
        let run =
          (worker_turn-Refused open_file cs directory stop 0 (n + 1) s bad.buffer bad.after
            bad.reason (never (n + 1)) (never (n + 1 + 1)) bad.arrived bad.refused).0 in
        (
          finish open_file cs directory stop done n (map running polls) turn p,
          record {
            reached = next l.reached (
                takes_turn done (map running polls) n 1 turn l.threads
                  (ap
                      (λ (g : Option State × Stack State).
                        worker_turn open_file cs directory stop 1 (n + 1) g.0)
                      top
                    ∙ run)
                  refl);
            threads = sym (append_assoc done (ended ∷ []) (map running polls));
            all_done = All-append HasEnded done (ended ∷ []) l.all_done (refl, tt);
            waiting = ap (λ (g : Option State × Stack State). g.1) top;
          },
        )

    tops_end :
        (p : Program State) (done : List Status) (polls : List ℕ) (conns : List State)
        (rest : Stack State)
        → length conns ≡ length polls
        → All IsRefused conns
        → Left p done polls conns rest
        → (q : Program State) × (done' : List Status) × Left q done' [] [] rest
    tops_end p done [] [] rest size bad l = (p, done, l)
    tops_end p done [] (s ∷ conns) rest size bad l = absurd (omega arith)
    tops_end p done (n ∷ polls) [] rest size bad l = absurd (omega arith)
    tops_end p done (n ∷ polls) (s ∷ conns) rest size (b, bad) l =
        let (q, l') = top_ends p done n polls s conns rest b l in
        tops_end q (done ++ ended ∷ []) polls conns rest (omega arith) bad l'

    -- Where all threads are running, no stop is ever requested, and the stack begins with as many
    -- connections as there are threads, each with a request that is refused, the program can reach
    -- a state in which every thread has ended and what lies below on the stack is still there.
    pub refused_end-All :
        (polls : List ℕ) (conns : List State) (rest : Stack State)
        → p₀.workers ≡ map running polls
        → p₀.stack ≡ map some conns ++ rest
        → length conns ≡ length polls
        → All IsRefused conns
        → (q : Program State) × Reach open_file cs directory stop p₀ q
          × All HasEnded q.workers
          × (q.stack ≡ rest)
    refused_end-All polls conns rest w s size bad =
        let (q, done, l) =
          tops_end p₀ [] polls conns rest size bad
            (record { reached = here; threads = w; all_done = tt; waiting = s }) in
        (
          q,
          l.reached,
          subst (All HasEnded) (sym (l.threads ∙ append-nil done)) l.all_done,
          l.waiting,
        )
