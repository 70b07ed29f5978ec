-- ===== src/Net/ClientSocket.antt =====
-- ClientSocket.h and ClientSocket.cpp. The calls that set the socket up go to the system's trace;
-- those that move data go to a transport.
pub mod Close
pub mod Class
use small_http_server.Base.{ℕ, Bool, true, false, if◌then◌else◌}
use small_http_server.Base.Int.{ℤ, is_minus_one, is_positive, is_negative, minus_one}
use small_http_server.Exceptions.{Result, ok}
use small_http_server.Run.{Run, pure, ◌>>=◌}
use small_http_server.Text.{Buffer}
use small_http_server.Net.System.{
  System, Trace, perform, set_receive_timeout, set_send_timeout, connect, select, shutdown, close,
}
use small_http_server.Net.ServerSocket.{to_unsigned}

-- The field m_socket.
pub record ClientSocket : Type 0 where
  pub socket_fd : ℤ

-- The constructor, and Get.
abbrev pub create : ℤ → ClientSocket
create socket = record { socket_fd = socket }

abbrev pub get : ClientSocket → ℤ
get c = c.socket_fd

module _ (system : System) where
  unfoldable pub set_timeout : ClientSocket → Run Trace (Unit {0})
  set_timeout c = do
    _ ← perform system (set_receive_timeout c.socket_fd 5)
    _ ← perform system (set_send_timeout c.socket_fd 5)
    pure tt

  unfoldable pub connect_to : ClientSocket → Buffer → ℤ → Run Trace Bool
  connect_to c ip port = do
    r ← perform system (connect c.socket_fd ip (to_unsigned 16 port))
    if is_negative r then pure false else pure true

  unfoldable pub is_alive : ClientSocket → Run Trace Bool
  is_alive c = do r ← perform system (select c.socket_fd 1); pure (is_positive r)

  -- CloseSocket, and the destructor, which calls it.
  unfoldable pub close_socket : ClientSocket → Run Trace ClientSocket
  close_socket c =
      if is_minus_one c.socket_fd
      then pure c
      else perform system (shutdown c.socket_fd) >>= λ _.
          perform system (close c.socket_fd) >>= λ _. pure (record { socket_fd = minus_one })
