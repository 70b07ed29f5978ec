-- ===== src/Net/Server/Descriptors.antt =====
-- Which descriptors a server closes.
use small_http_server.Base.{
  ℕ, ◌+◌, ◌≡◌, refl, true, false, List, [], ◌∷◌, ◌++◌, some, arith, if◌then◌else◌, inl, inr,
  Bool-cases,
}
use small_http_server.Base.Int.{ℤ, is_minus_one, is_negative, ℤ_eq, ℤ_eq_iff}
use small_http_server.Exceptions.{ok}
use small_http_server.Run.{Run, ◌>>=◌}
use small_http_server.Net.System.{System, Trace, closes, epoll_add, close, ctx_free}
use small_http_server.Net.ServerSocket
use small_http_server.Net.ServerSocket.{ServerSocket, move}
use small_http_server.Net.TlsContext
use small_http_server.Net.Server.{
  Server, add_descriptor, add_socket, delete_socket, delete_all, destroy_sockets, destroy,
}

-- How many of the sockets have a descriptor.
abbrev pub holders : ℤ → List ServerSocket → ℕ
holders fd [] = 0
holders fd (s ∷ ss) = (if ℤ_eq s.socket_fd fd then 1 else 0) + holders fd ss

pub negative_other : (c fd : ℤ) → is_negative c ≡ true → is_negative fd ≡ false → ℤ_eq c fd ≡ false
negative_other c fd h k = ground (arith, ℤ_eq_iff c fd)

pub holders-append :
    (fd : ℤ) (ss : List ServerSocket) (s : ServerSocket)
    → holders fd (ss ++ s ∷ []) ≡ holders fd ss + (if ℤ_eq s.socket_fd fd then 1 else 0)
holders-append fd [] s = omega arith
holders-append fd (t ∷ ss) s = omega (arith, holders-append fd ss s)

module _ (system : System) where
  delete_all-closes :
      (server : Server) (ss : List ServerSocket) (fd : ℤ) (trace : Trace)
      → (after : Trace) × (delete_all system server ss trace ≡ some (ok tt, after))
        × (closes fd after ≡ closes fd trace)
  unfolding delete_all delete_socket
  delete_all-closes server [] fd trace = (trace, refl, refl)
  delete_all-closes server (s ∷ ss) fd trace = delete_all-closes server ss fd _

  -- A socket is closed where its descriptor is none of the negative ones.
  pub destroy_socket-closes :
      (s : ServerSocket) (fd : ℤ) (trace : Trace)
      → is_negative fd ≡ false
      → (after : Trace) × (ServerSocket.destroy system s trace ≡ some (ok tt, after))
        × (closes fd after ≡ (if ℤ_eq s.socket_fd fd then 1 else 0) + closes fd trace)
  unfolding ServerSocket.destroy
  destroy_socket-closes s fd trace h = elim (Bool-cases (is_negative s.socket_fd)) [
    | inl negative ↦
        (trace, rw negative, rw (negative_other s.socket_fd fd negative h) (omega arith))
    | inr open_one ↦ (close s.socket_fd ∷ trace, rw open_one, refl)
  ]

  destroy_sockets-closes :
      (ss : List ServerSocket) (fd : ℤ) (trace : Trace)
      → is_negative fd ≡ false
      → (after : Trace) × (destroy_sockets system ss trace ≡ some (ok tt, after))
        × (closes fd after ≡ holders fd ss + closes fd trace)
  unfolding destroy_sockets
  destroy_sockets-closes [] fd trace h = (trace, refl, omega arith)
  destroy_sockets-closes (s ∷ ss) fd trace h =
      let (middle, e, c) = destroy_socket-closes s fd trace h in
      let (after, f, d) = destroy_sockets-closes ss fd middle h in
      (after, rw e f, omega (arith, c, d))

  -- The destructor of a server closes a descriptor that is not negative as often as the server's
  -- sockets hold it, and so each socket once; one that none of them holds, such as the epoll
  -- descriptor, it leaves open.
  pub destroy-closes :
      (server : Server) (fd : ℤ) (trace : Trace)
      → is_negative fd ≡ false
      → (after : Trace) × (destroy system server trace ≡ some (ok tt, after))
        × (closes fd after ≡ holders fd server.server_sockets + closes fd trace)
  unfolding destroy TlsContext.destroy
  destroy-closes server fd trace h =
      let (middle, e, c) = delete_all-closes server server.server_sockets fd trace in
      let (after, f, d) =
        destroy_sockets-closes server.server_sockets fd (ctx_free server.tls_context.ctx ∷ middle)
          h in
      (after, rw e f, omega (arith, c, d))

  -- A socket that is given to a server, what is left of it, and then the server.
  abbrev pub given_away : Server → ServerSocket → Run Trace (Unit {0})
  given_away server s = do
    (owner, left) ← add_socket system server s
    _ ← ServerSocket.destroy system left
    destroy system owner

  -- A socket that is added to a server without an error is closed once, by the server's
  -- destructor: the destructor of what is left of it closes nothing.
  pub given_away-closes :
      (server : Server) (s : ServerSocket) (fd : ℤ) (trace : Trace)
      → is_negative fd ≡ false
      → is_minus_one (system.answer trace (epoll_add server.epoll s.socket_fd)) ≡ false
      → (after : Trace) × (given_away server s trace ≡ some (ok tt, after))
        × (closes fd after
            ≡ holders fd server.server_sockets
              + (if ℤ_eq s.socket_fd fd then 1 else 0)
              + closes fd trace)
  unfolding add_socket add_descriptor move ServerSocket.destroy
  given_away-closes server s fd trace h added =
      let (after, e, c) =
        destroy-closes (record server { server_sockets = server.server_sockets ++ s ∷ [] }) fd
          (epoll_add server.epoll s.socket_fd ∷ trace) h in
      (after, rw added e, omega (arith, c, holders-append fd server.server_sockets s))
