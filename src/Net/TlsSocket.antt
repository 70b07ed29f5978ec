-- ===== src/Net/TlsSocket.antt =====
-- TLSSocket.h and TLSSocket.cpp.
pub mod Class
use small_http_server.Base.{Bool, true, false, if◌then◌else◌}
use small_http_server.Base.Int.{ℤ, pos, is_minus_one, is_positive, is_zero, is_not_positive}
use small_http_server.Run.{Run, pure, ◌>>=◌}
use small_http_server.Text.{Buffer}
use small_http_server.Net.System.{
  System, Trace, perform, set_receive_timeout, set_send_timeout, select, ssl_new, ssl_set_fd,
  ssl_set_host, ssl_connect, ssl_peer_certificate, x509_free, ssl_accept, ssl_shutdown, ssl_free,
}

-- The fields m_ssl, m_socket and the pointer that m_context holds.
pub record TlsSocket : Type 0 where
  pub ssl : ℤ
  pub socket_fd : ℤ
  pub context : ℤ

module _ (system : System) where
  -- SSL_set_fd is called with what SSL_new gave, null too.
  unfoldable pub create_ssl : TlsSocket → Run Trace TlsSocket
  create_ssl s = do
    ssl ← perform system (ssl_new s.context)
    _ ← perform system (ssl_set_fd ssl s.socket_fd)
    pure (record s { ssl = ssl })

  -- The constructor.
  unfoldable pub create : ℤ → ℤ → Run Trace TlsSocket
  unfolding create_ssl
  create socket_fd context =
      create_ssl (record { ssl = pos 0; socket_fd = socket_fd; context = context })

  -- The destructor. The descriptor is not closed.
  unfoldable pub destroy : TlsSocket → Run Trace (Unit {0})
  destroy s = if is_zero s.ssl then pure tt else perform system (ssl_free s.ssl) >>= λ _. pure tt

  -- A missing SSL object is made first.
  unfoldable pub ensure_ssl : TlsSocket → Run Trace TlsSocket
  unfolding create_ssl
  ensure_ssl s = if is_zero s.ssl then create_ssl s else pure s

  unfoldable pub shutdown : TlsSocket → Run Trace (Unit {0})
  shutdown s =
      if is_zero s.ssl then pure tt else perform system (ssl_shutdown s.ssl) >>= λ _. pure tt

  unfoldable pub finish_accept : TlsSocket → ℤ → Run Trace (TlsSocket × Bool)
  unfolding shutdown
  finish_accept s r =
      if is_not_positive r
      then (shutdown s >>= λ _.
          perform system (ssl_free s.ssl) >>= λ _. pure (record s { ssl = pos 0 }, false))
      else pure (s, true)

  unfoldable pub accept : TlsSocket → Run Trace (TlsSocket × Bool)
  unfolding ensure_ssl finish_accept
  accept this = do s ← ensure_ssl this; r ← perform system (ssl_accept s.ssl); finish_accept s r

  -- The peer's certificate, which is looked at and freed.
  unfoldable pub check_peer : TlsSocket → Run Trace Bool
  check_peer s = do
    cert ← perform system (ssl_peer_certificate s.ssl)
    if is_zero cert then pure false else perform system (x509_free cert) >>= λ _. pure true

  unfoldable pub handshake : TlsSocket → Buffer → Run Trace Bool
  unfolding check_peer
  handshake s hostname = do
    named ← perform system (ssl_set_host s.ssl hostname)
    if is_zero named
        then pure false
        else perform system (ssl_connect s.ssl) >>= λ r.
            if is_minus_one r then pure false else check_peer s

  unfoldable pub connect : TlsSocket → Buffer → Run Trace (TlsSocket × Bool)
  unfolding ensure_ssl handshake
  connect this hostname = do
    s ← ensure_ssl this
    connected ← handshake s hostname
    pure (s, connected)

  unfoldable pub set_timeout : TlsSocket → Run Trace (Unit {0})
  set_timeout s = do
    _ ← perform system (set_receive_timeout s.socket_fd 5)
    _ ← perform system (set_send_timeout s.socket_fd 5)
    pure tt

  unfoldable pub is_alive : TlsSocket → Run Trace Bool
  is_alive s = do r ← perform system (select s.socket_fd 5); pure (is_positive r)
