-- ===== src/Net/ClientSocket/Close.antt =====
-- How a client socket is closed.
use small_http_server.Base.{◌≡◌, false, ◌∷◌, some}
use small_http_server.Base.Int.{is_minus_one, minus_one}
use small_http_server.Exceptions.{ok}
use small_http_server.Run.{continue}
use small_http_server.Net.System.{System, Trace, shutdown, close}
use small_http_server.Net.ClientSocket.{ClientSocket, close_socket}

module _ (system : System) where
  -- An open socket is shut down and closed once, however often CloseSocket and the destructor are
  -- called after.
  pub close_socket_twice :
      (c : ClientSocket) (trace : Trace)
      → is_minus_one c.socket_fd ≡ false
      → (close_socket system c trace
          ≡ some (
            ok (record { socket_fd = minus_one }),
            close c.socket_fd ∷ shutdown c.socket_fd ∷ trace,
          ))
        × (continue (close_socket system c trace) (close_socket system)
            ≡ close_socket system c trace)
  unfolding close_socket
  close_socket_twice c trace h = (rw h, rw h)
