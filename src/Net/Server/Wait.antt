-- ===== src/Net/Server/Wait.antt =====
-- What WaitClients returns, and when.
use small_http_server.Base.{
  ℕ, zero, suc, ◌+◌, ◌<◌, ◌≡◌, refl, sym, ap, ◌∙◌, Bool, true, false, List, [], ◌∷◌, ◌++◌, Option,
  none, some, arith, All, Bool-cases, Option-cases, inl, inr, if◌then◌else◌,
}
use small_http_server.Base.Int.{ℤ, ℤ_eq, ℤ_eq_iff}
use small_http_server.Exceptions.{Result, ok, throw, net_exception}
use small_http_server.Run.{Run, pure, continue, ◌>>=◌}
use small_http_server.Net.System.{System, Trace, epoll_wait}
use small_http_server.Net.ServerSocket.{ServerSocket}
use small_http_server.Net.Acceptor
use small_http_server.Net.Acceptor.{Connection}
use small_http_server.Net.Acceptor.Outcome.{apply-Quiet}
use small_http_server.Net.Server.{
  Server, max_events, find_socket, acceptor_of, take_event, wait_loop,
}

pub find_socket_sound :
    (fd : ℤ) (ss : List ServerSocket) (s : ServerSocket)
    → find_socket fd ss ≡ some s
    → s.socket_fd ≡ fd
unfolding find_socket
find_socket_sound fd [] s e = cc
find_socket_sound fd (t ∷ ss) s e = elim (Bool-cases (ℤ_eq t.socket_fd fd)) [
  | inl same ↦
      let found : some t ≡ some s = rw same at e in cc ((ℤ_eq_iff t.socket_fd fd).0 same, found)
  | inr other ↦ find_socket_sound fd ss s (rw other at e)
]

-- An event that belongs to none of the server's sockets.
abbrev pub IsForeign : Server → ℤ → Type 0
IsForeign server fd = find_socket fd server.server_sockets ≡ none

module _ (system : System) where
  -- What a list of events gives.
  pub data Taken (server : Server) (fds : List ℤ) (trace : Trace)
      : Option (Result (Option (Option Connection)) × Trace) → Type 0 where
    nobody : All (IsForeign server) fds → Taken server fds trace (some (ok none, trace))
    first :
        (before : List ℤ) (s : ServerSocket) (later : List ℤ) (c : Option Connection)
        (after : Trace)
        → fds ≡ before ++ s.socket_fd ∷ later
        → All (IsForeign server) before
        → find_socket s.socket_fd server.server_sockets ≡ some s
        → Acceptor.apply system (acceptor_of system server s) trace ≡ some (ok c, after)
        → Taken server fds trace (some (ok (some c), after))

  take_event-foreign :
      (server : Server) (fd : ℤ) (fds : List ℤ)
      → IsForeign server fd
      → take_event system server (fd ∷ fds) ≡ take_event system server fds
  unfolding take_event
  take_event-foreign server fd fds e = rw (take_event, e)

  take_event-found :
      (server : Server) (fd : ℤ) (fds : List ℤ) (s : ServerSocket)
      → find_socket fd server.server_sockets ≡ some s
      → take_event system server (fd ∷ fds)
        ≡ (Acceptor.apply system (acceptor_of system server s) >>= λ c. pure (some c))
  unfolding take_event
  take_event-found server fd fds s e = rw (take_event, e)

  found-Taken :
      (server : Server) (fd : ℤ) (fds : List ℤ) (trace : Trace) (s : ServerSocket)
      → find_socket fd server.server_sockets ≡ some s
      → Taken server (fd ∷ fds) trace (take_event system server (fd ∷ fds) trace)
  found-Taken server fd fds trace s e =
      let (c, after, run, _, _) = apply-Quiet system (acceptor_of system server s) trace in
      let same = find_socket_sound fd server.server_sockets s e in
      rw (take_event-found server fd fds s e, run)
        (first [] s fds c after (ap (λ (d : ℤ). d ∷ fds) (sym same)) tt
          (ap (λ (d : ℤ). find_socket d server.server_sockets) same ∙ e) run)

  Taken-cons :
      (server : Server) (fd : ℤ) (fds : List ℤ) (trace : Trace)
      (r : Option (Result (Option (Option Connection)) × Trace))
      → IsForeign server fd
      → Taken server fds trace r
      → Taken server (fd ∷ fds) trace r
  Taken-cons server fd fds trace _ h (nobody k) = nobody (h, k)
  Taken-cons server fd fds trace _ h (first before s later c after e k f run) =
      first (fd ∷ before) s later c after (ap (◌∷◌ fd) e) (h, k) f run

  -- The first event that belongs to one of the server's sockets decides: its acceptor is called, and
  -- no other. Where none does, nothing is called.
  pub take_event-Taken :
      (server : Server) (fds : List ℤ) (trace : Trace)
      → Taken server fds trace (take_event system server fds trace)
  unfolding take_event
  take_event-Taken server [] trace = nobody tt
  take_event-Taken server (fd ∷ fds) trace =
      elim (Option-cases (find_socket fd server.server_sockets)) [
        | inl e ↦
            rw (take_event-foreign server fd fds e)
              (Taken-cons server fd fds trace _ e (take_event-Taken server fds trace))
        | inr (s, e) ↦ found-Taken server fd fds trace s e
      ]

  module _ (stop : ℕ → Bool) (server : Server) where
    -- A wait that returns or throws.
    abbrev Returns : Option (Result (Option Connection) × Trace) → Type 0
    Returns o = (r : Result (Option Connection)) × (after : Trace) × (o ≡ some (r, after))

    -- The round after the events, where the rounds that may follow return.
    round-Returns :
        (again : Run Trace (Option Connection)) (polls : ℕ) (trace : Trace)
        (o : Option (Result (Option (Option Connection)) × Trace)) (fds : List ℤ)
        → Taken server fds trace o
        → (stop polls ≡ false → (t : Trace) → Returns (again t))
        → Returns (
            continue o (λ taken. elim taken [
              | some c ↦ pure c
              | none ↦ if stop polls then pure none else again
            ]))
    round-Returns again polls trace _ fds (first before s later c after e h f run) k =
        (ok c, after, refl)
    round-Returns again polls trace _ fds (nobody h) k = elim (Bool-cases (stop polls)) [
      | inl stopped ↦ (ok none, trace, rw stopped)
      | inr go ↦ let (r, after, e) = k go trace in (r, after, rw go e)
    ]

    stop_later :
        (k polls : ℕ)
        → stop (polls + k) ≡ true
        → stop polls ≡ false
        → (j : ℕ) × (k ≡ suc j) × (stop (polls + 1 + j) ≡ true)
    stop_later zero polls e go =
        let same : stop (polls + 0) ≡ stop polls = ap stop (omega arith) in cc (same, e, go)
    stop_later (suc k) polls e go = (k, refl, ap stop (omega arith) ∙ e)

    -- WaitClients returns or throws at the latest in the round after which a stop is found to be
    -- requested, whatever events are reported.
    pub wait_loop-returns :
        (fuel polls k : ℕ) (trace : Trace)
        → k < fuel
        → stop (polls + k) ≡ true
        → (r : Result (Option Connection)) × (after : Trace) × (wait_loop system stop server fuel
              polls trace
            ≡ some (r, after))
    unfolding wait_loop
    wait_loop-returns zero polls k trace h e = elim h [ ]
    wait_loop-returns (suc fuel) polls k trace h e = elim (Option-cases (system.events trace)) [
      | inl failed ↦ (
        throw (net_exception "Error epoll_wait create"),
        epoll_wait server.epoll max_events ∷ trace,
        rw failed,
      )
      | inr (fds, found) ↦ rw found (
          round-Returns (wait_loop system stop server fuel (polls + 1)) polls
            (epoll_wait server.epoll max_events ∷ trace) _ fds (take_event-Taken server fds _)
            λ go t.
              let (j, before, e') = stop_later k polls e go in
              wait_loop-returns fuel (polls + 1) j t (omega (arith, before)) e')
    ]
