-- ===== src/Program/Main/Balance.antt =====
-- How often a descriptor has been made to listen and closed: the destructors of ServerSocket and of
-- Server.
use small_http_server.Base.{
  ℕ, ◌+◌, ◌≡◌, false, inl, inr, Bool-cases, List, [], ◌∷◌, some, arith, if◌then◌else◌,
}
use small_http_server.Base.Int.{ℤ, is_negative, ℤ_eq}
use small_http_server.Exceptions.{Result, ok, throw}
use small_http_server.Net.System.{System, Trace, closes, listen, ctx_free, epoll_delete, close}
use small_http_server.Net.ServerSocket as Sockets
use small_http_server.Net.ServerSocket.{ServerSocket}
use small_http_server.Net.TlsContext
use small_http_server.Net.TlsContext.{TlsContext}
use small_http_server.Net.Server
use small_http_server.Net.Server.{Server}
use small_http_server.Net.Server.Descriptors.{holders, negative_other}
use small_http_server.Run.Outcomes.{After, done-After, continue-After}

-- How many of a trace's calls make a descriptor listen.
abbrev pub listens : ℤ → Trace → ℕ
listens fd [] = 0
listens fd (listen c ∷ trace) = (if ℤ_eq c fd then 1 else 0) + listens fd trace
listens fd (_ ∷ trace) = listens fd trace

-- The descriptor has been made to listen as often as it has been closed and is held by `count`.
abbrev pub IsBalanced : ℤ → ℕ → Trace → Type 0
IsBalanced fd count trace = listens fd trace ≡ closes fd trace + count

abbrev pub Same : {A : Type 0} → ℤ → ℕ → Result A → Trace → Type 0
Same fd count x = IsBalanced fd count

abbrev pub one : ℤ → ServerSocket → ℕ
one fd s = if ℤ_eq s.socket_fd fd then 1 else 0

-- It does not throw.
abbrev pub Returned : {A : Type 0} → ℤ → ℕ → Result A → Trace → Type 0
Returned fd count (ok a) = IsBalanced fd count
Returned fd count (throw e) = λ trace. ⊥

module _ (system : System) (fd : ℤ) (fd_valid : is_negative fd ≡ false) where
  returns :
      {A : Type 0} (count : ℕ) (a : A) (t : Trace)
      → IsBalanced fd count t
      → After (Returned fd count) (some (ok a, t))
  returns count a t b = done-After (Returned fd count) (ok a) t b

  pub destroy_socket-Returned :
      (s : ServerSocket) (count : ℕ) (t : Trace)
      → IsBalanced fd (one fd s + count) t
      → After (Returned fd count) (Sockets.destroy system s t)
  unfolding Sockets.destroy
  destroy_socket-Returned s count t b = elim (Bool-cases (is_negative s.socket_fd)) [
    | inl negative ↦
        let none_held = negative_other s.socket_fd fd negative fd_valid in
        let kept : IsBalanced fd count t = omega (arith, rw none_held at b) in
        rw negative (returns count tt t kept)
    | inr open_one ↦
        let closed : IsBalanced fd count (close s.socket_fd ∷ t) = omega (arith, b) in
        rw open_one (returns count tt (close s.socket_fd ∷ t) closed)
  ]

  destroy_sockets-Returned :
      (ss : List ServerSocket) (count : ℕ) (t : Trace)
      → IsBalanced fd (holders fd ss + count) t
      → After (Returned fd count) (Server.destroy_sockets system ss t)
  unfolding Server.destroy_sockets
  destroy_sockets-Returned [] count t b = returns count tt t (omega (arith, b))
  destroy_sockets-Returned (s ∷ ss) count t b =
      continue-After (Returned fd (holders fd ss + count)) (Returned fd count)
        (Sockets.destroy system s t) _
        (destroy_socket-Returned s (holders fd ss + count) t (omega (arith, b)))
        (λ _ u c. destroy_sockets-Returned ss count u c) (λ e u c. c)

  delete_all-Returned :
      (server : Server) (ss : List ServerSocket) (count : ℕ) (t : Trace)
      → IsBalanced fd count t
      → After (Returned fd count) (Server.delete_all system server ss t)
  unfolding Server.delete_all Server.delete_socket
  delete_all-Returned server [] count t b = returns count tt t b
  delete_all-Returned server (s ∷ ss) count t b =
      delete_all-Returned server ss count (epoll_delete server.epoll s.socket_fd ∷ t) b

  pub destroy-Returned :
      (server : Server) (count : ℕ) (t : Trace)
      → IsBalanced fd (holders fd server.server_sockets + count) t
      → After (Returned fd count) (Server.destroy system server t)
  unfolding Server.destroy TlsContext.destroy
  destroy-Returned server count t b =
      continue-After (Returned fd (holders fd server.server_sockets + count)) (Returned fd count)
        (Server.delete_all system server server.server_sockets t) _
        (delete_all-Returned server server.server_sockets _ t b)
        (λ _ u c.
          destroy_sockets-Returned server.server_sockets count (ctx_free server.tls_context.ctx ∷ u)
            c)
        (λ e u c. c)
