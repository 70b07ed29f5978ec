-- ===== src/Net/Acceptor.antt =====
-- The class Acceptor of SocketHelper.h and SocketHelper.cpp. The client's address is only logged.
pub mod Outcome
pub mod Class
pub mod Given
use small_http_server.Base.{Bool, true, false, Option, none, some, if◌then◌else◌}
use small_http_server.Base.Int.{ℤ, is_negative}
use small_http_server.Run.{Run, pure, ◌>>=◌}
use small_http_server.Net.System as Sys
use small_http_server.Net.System.{System, Trace, perform}
use small_http_server.Net.ClientSocket
use small_http_server.Net.ClientSocket.{ClientSocket}
use small_http_server.Net.TlsSocket
use small_http_server.Net.TlsSocket.{TlsSocket}

-- What the pointer to Socket points to.
pub data Connection : Type 0 where
  client : ClientSocket → Connection
  tls : TlsSocket → Connection

-- The fields m_socket and m_context; `none` is the null pointer.
pub record Acceptor : Type 0 where
  pub master : ℤ
  pub context : Option ℤ

module _ (system : System) where
  -- The local `tls`, which is made and destroyed at the end of the call, and the one on the heap.
  unfoldable pub finish_tls : TlsSocket → TlsSocket × Bool → Run Trace (Option Connection)
  unfolding TlsSocket.destroy
  finish_tls local (s, true) = do _ ← TlsSocket.destroy system local; pure (some (tls s))
  finish_tls local (s, false) = do
    _ ← TlsSocket.destroy system s
    _ ← TlsSocket.destroy system local
    pure none

  unfoldable pub accept_tls : ℤ → ℤ → Run Trace (Option Connection)
  unfolding finish_tls TlsSocket.create TlsSocket.accept
  accept_tls client_fd context = do
    local ← TlsSocket.create system client_fd context
    s ← TlsSocket.create system client_fd context
    r ← TlsSocket.accept system s
    finish_tls local r

  unfoldable pub wrap : Option ℤ → ℤ → Run Trace (Option Connection)
  unfolding accept_tls
  wrap none client_fd = pure (some (client (ClientSocket.create client_fd)))
  wrap (some context) client_fd = accept_tls client_fd context

  -- operator()
  unfoldable pub apply : Acceptor → Run Trace (Option Connection)
  unfolding wrap
  apply a = do
    client_fd ← perform system (Sys.accept a.master)
    if is_negative client_fd then pure none else wrap a.context client_fd
