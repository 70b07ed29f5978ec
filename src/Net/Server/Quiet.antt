-- ===== src/Net/Server/Quiet.antt =====
-- WaitClients closes no descriptor.
use small_http_server.Base.{
  ℕ, zero, suc, ◌+◌, ◌≡◌, refl, sym, ap, ◌∙◌, ◌∷◌, Bool, inl, inr, Bool-cases, Option-cases, List,
  Option, none, some, if◌then◌else◌,
}
use small_http_server.Base.Int.{ℤ}
use small_http_server.Exceptions.{Result, ok}
use small_http_server.Run.{Run, continue, pure}
use small_http_server.Net.System.{System, Trace, closes, epoll_wait}
use small_http_server.Net.Acceptor.{Connection}
use small_http_server.Net.Acceptor.Outcome.{apply-Quiet}
use small_http_server.Net.Server.{Server, acceptor_of, max_events, wait_loop}
use small_http_server.Net.Server.Wait.{Taken, nobody, first, take_event-Taken}

module _ (system : System) where
  abbrev pub IsQuiet : {A : Type 0} → Trace → Option (Result A × Trace) → Type 0
  IsQuiet {A} trace o =
      (r : Result A) (after : Trace)
      → o ≡ some (r, after)
      → (fd : ℤ) → closes fd after ≡ closes fd trace

  done-IsQuiet :
      {A : Type 0} (trace after : Trace) (a : Result A)
      → ((fd : ℤ) → closes fd after ≡ closes fd trace)
      → IsQuiet trace (some (a, after))
  done-IsQuiet trace after a h r later e fd =
      let same : after ≡ later = cc e in ap (closes fd) (sym same) ∙ h fd

  module _ (stop : ℕ → Bool) (server : Server) where
    Taken-IsQuiet :
        (fds : List ℤ) (trace : Trace) (again : Run Trace (Option Connection)) (polls : ℕ)
        (o : Option (Result (Option (Option Connection)) × Trace))
        → Taken system server fds trace o
        → ((t : Trace) → IsQuiet t (again t))
        → IsQuiet trace (
            continue o (λ taken. elim taken [
              | some c ↦ pure c
              | none ↦ if stop polls then pure none else again
            ]))
    Taken-IsQuiet fds trace again polls _ (nobody h) k = elim (Bool-cases (stop polls)) [
      | inl stopped ↦ rw stopped (done-IsQuiet trace trace (ok none) (λ fd. refl))
      | inr go ↦ rw go (k trace)
    ]
    Taken-IsQuiet fds trace again polls _ (first before s later c after e h f run) k =
        let (c', after', run', given, quiet) =
          apply-Quiet system (acceptor_of system server s) trace in
        let same : after' ≡ after = cc (run, run') in
        done-IsQuiet trace after (ok c) (λ fd. ap (closes fd) (sym same) ∙ quiet fd)

    -- Whatever is reported and whether it returns or throws, WaitClients closes no descriptor.
    pub wait_loop-IsQuiet :
        (fuel polls : ℕ) (trace : Trace)
        → IsQuiet trace (wait_loop system stop server fuel polls trace)
    unfolding wait_loop
    wait_loop-IsQuiet zero polls trace = λ r after e. cc
    wait_loop-IsQuiet (suc fuel) polls trace = elim (Option-cases (system.events trace)) [
      | inl failed ↦
          rw failed (done-IsQuiet trace (epoll_wait server.epoll max_events ∷ trace) _ (λ fd. refl))
      | inr (fds, found) ↦ rw found (λ r after e fd.
          Taken-IsQuiet fds (epoll_wait server.epoll max_events ∷ trace)
            (wait_loop system stop server fuel (polls + 1)) polls _
            (take_event-Taken system server fds _) (λ t. wait_loop-IsQuiet fuel (polls + 1) t) r
            after e fd)
    ]
