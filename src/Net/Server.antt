-- ===== src/Net/Server.antt =====
-- Server.h and Server.cpp.
pub mod Wait
pub mod Descriptors
pub mod Class
pub mod Quiet
pub mod Lifetime
use small_http_server.Base.{
  ℕ, zero, suc, ◌+◌, Bool, true, false, List, [], ◌∷◌, ◌++◌, Option, none, some, if◌then◌else◌,
}
use small_http_server.Base.Int.{ℤ, is_minus_one, ℤ_eq}
use small_http_server.Exceptions.{net_exception, throw}
use small_http_server.Run.{Run, pure, lift, ◌>>=◌}
use small_http_server.Net.System.{
  System, Trace, perform, wait_events, epoll_create, epoll_add, epoll_delete,
}
use small_http_server.Net.ServerSocket
use small_http_server.Net.ServerSocket.{ServerSocket, move, moved_from}
use small_http_server.Net.TlsContext
use small_http_server.Net.TlsContext.{TlsContext}
use small_http_server.Net.Acceptor
use small_http_server.Net.Acceptor.{Acceptor, Connection}

abbrev pub max_events : ℕ
max_events = 300

pub record Server : Type 0 where
  pub epoll : ℤ
  pub server_sockets : List ServerSocket
  pub tls_context : TlsContext

-- std::find_if over the server's sockets.
unfoldable pub find_socket : ℤ → List ServerSocket → Option ServerSocket
find_socket fd [] = none
find_socket fd (s ∷ ss) = if ℤ_eq (ServerSocket.get s) fd then some s else find_socket fd ss

module _ (system : System) where
  -- The body of the constructor; where it throws, the members that are made are destroyed.
  unfoldable pub create_epoll : TlsContext → Run Trace Server
  unfolding TlsContext.destroy
  create_epoll context = do
    epoll ← perform system epoll_create
    if is_minus_one epoll
        then (TlsContext.destroy system context >>= λ _.
            lift (throw (net_exception "Error epoll create")))
        else pure (record { epoll = epoll; server_sockets = []; tls_context = context })

  unfoldable pub create : Run Trace Server
  unfolding TlsContext.create create_epoll
  create = do context ← TlsContext.create system true; create_epoll context

  -- AddSocket of a descriptor.
  unfoldable pub add_descriptor : Server → ℤ → Run Trace (Unit {0})
  add_descriptor server fd = do
    err ← perform system (epoll_add server.epoll fd)
    if is_minus_one err then lift (throw (net_exception "add socket in epoll")) else pure tt

  -- AddSocket of a server socket, which is moved into the server; what is left of it is returned.
  unfoldable pub add_socket : Server → ServerSocket → Run Trace (Server × ServerSocket)
  unfolding add_descriptor move
  add_socket server s = do
    _ ← add_descriptor server (ServerSocket.get s)
    let (owned, left) = move s
    pure (record server { server_sockets = server.server_sockets ++ owned ∷ [] }, left)

  unfoldable pub delete_socket : Server → ℤ → Run Trace (Unit {0})
  delete_socket server fd = perform system (epoll_delete server.epoll fd) >>= λ _. pure tt

  unfoldable pub acceptor_of : Server → ServerSocket → Acceptor
  acceptor_of server s =
      if ServerSocket.is_secure s
      then record {
        master = ServerSocket.get s;
        context = some (TlsContext.get server.tls_context);
      }
      else record { master = ServerSocket.get s; context = none }

  -- Accept of a server socket, which calls its argument.
  unfoldable pub accept_with : Acceptor → Run Trace (Option Connection)
  unfolding Acceptor.apply
  accept_with acceptor = Acceptor.apply system acceptor

  -- The loop over the events: the first that belongs to a server socket decides the result of
  -- WaitClients; `none` is a loop that ends without one.
  unfoldable pub take_event : Server → List ℤ → Run Trace (Option (Option Connection))
  unfolding find_socket acceptor_of accept_with
  take_event server [] = pure none
  take_event server (fd ∷ fds) = elim (find_socket fd server.server_sockets) [
    | none ↦ take_event server fds
    | some s ↦ accept_with (acceptor_of server s) >>= λ c. pure (some c)
  ]

  -- The loop of WaitClients on fuel; `stop k` answers the k-th call of `stop_requested`.
  unfoldable pub wait_loop : (ℕ → Bool) → Server → ℕ → ℕ → Run Trace (Option Connection)
  unfolding take_event
  wait_loop stop server zero polls trace = none
  wait_loop stop server (suc fuel) polls trace =
      (wait_events system server.epoll max_events >>= λ events. elim events [
        | none ↦ lift (throw (net_exception "Error epoll_wait create"))
        | some fds ↦ take_event server fds >>= λ taken. elim taken [
          | some c ↦ pure c
          | none ↦ if stop polls then pure none else wait_loop stop server fuel (polls + 1)
        ]
      ])
        trace

  -- The destructor: its body, and then the members, the last declared first.
  unfoldable pub delete_all : Server → List ServerSocket → Run Trace (Unit {0})
  unfolding delete_socket
  delete_all server [] = pure tt
  delete_all server (s ∷ ss) =
      delete_socket server (ServerSocket.get s) >>= λ _. delete_all server ss

  unfoldable pub destroy_sockets : List ServerSocket → Run Trace (Unit {0})
  unfolding ServerSocket.destroy
  destroy_sockets [] = pure tt
  destroy_sockets (s ∷ ss) = ServerSocket.destroy system s >>= λ _. destroy_sockets ss

  unfoldable pub destroy : Server → Run Trace (Unit {0})
  unfolding delete_all destroy_sockets TlsContext.destroy
  destroy server = do
    _ ← delete_all server server.server_sockets
    _ ← TlsContext.destroy system server.tls_context
    destroy_sockets server.server_sockets
