-- ===== src/Net/TlsSocket/Class.antt =====
-- The class TLSSocket of TLSSocket.h, as Acceptor sees it: an object owns an SSL object, which its
-- destructor frees, and only borrows the descriptor, which no operation closes.
use small_http_server.Base.{◌+◌, ◌≡◌, refl, sym, ap, ◌∙◌, Bool, true, false, ◌∷◌, some, arith}
use small_http_server.Base.Int.{ℤ, is_zero, ℤ_eq, ℤ_eq_iff}
use small_http_server.Exceptions.{ok}
use small_http_server.Run.{Run, ◌>>=◌}
use small_http_server.Text.{Buffer}
use small_http_server.Net.System.{System, Trace, ssl_free, ssl_frees}
use small_http_server.Net.Transport.{Transport}
use small_http_server.Net.Read.{read}
use small_http_server.Net.Write.{write}
use small_http_server.Net.Connection.{reading_returns, writing_returns}
use small_http_server.Net.TlsSocket
use small_http_server.Net.TlsSocket.{TlsSocket}
use small_http_server.Net.Acceptor.Outcome.{
  >>=-Quiet, Quiet, Any, create-Quiet, destroy-Quiet, accept-Quiet,
}

-- `descriptor` and `ssl` are what an object holds; the SSL object may be null.
pub record TlsSocketClass (system : System) (t : Transport) : Type 1 where
  pub Object : Type 0
  pub create : ℤ → ℤ → Run Trace Object
  pub destroy : Object → Run Trace (Unit {0})
  pub connect : Object → Buffer → Run Trace (Object × Bool)
  pub accept : Object → Run Trace (Object × Bool)
  pub set_timeout : Object → Run Trace (Unit {0})
  pub is_alive : Object → Run Trace Bool
  pub read_packet : Object → Buffer → Run t.State (ℤ × Buffer)
  pub write_packet : Object → Buffer → Run t.State ℤ
  pub shutdown : Object → Run Trace (Unit {0})
  pub create_ssl : Object → Run Trace Object
  pub descriptor : Object → ℤ
  pub ssl : Object → ℤ
  pub read_returns :
      (o : Object) (buffer : Buffer) (s : t.State)
      → (size : ℤ) × (left : Buffer) × (s' : t.State) × (read_packet o buffer s
          ≡ some (ok (size, left), s'))
        × (t.delivered s' ≡ t.delivered s)
  pub write_returns :
      (o : Object) (buffer : Buffer) (s : t.State)
      → (size : ℤ) × (s' : t.State) × (write_packet o buffer s ≡ some (ok size, s'))
  pub create_quiet : (fd context : ℤ) → Quiet (create fd context) (λ o. descriptor o ≡ fd)
  pub accept_quiet : (o : Object) → Quiet (accept o) (λ p. descriptor p.0 ≡ descriptor o)
  pub destroy_quiet : (o : Object) → Quiet (destroy o) Any
  pub destroy_frees :
      (o : Object) (trace after : Trace)
      → is_zero (ssl o) ≡ false
      → destroy o trace ≡ some (ok tt, after)
      → ssl_frees (ssl o) after ≡ ssl_frees (ssl o) trace + 1

module _ (system : System) where
  pub destroy-frees :
      (s : TlsSocket) (trace after : Trace)
      → is_zero s.ssl ≡ false
      → TlsSocket.destroy system s trace ≡ some (ok tt, after)
      → ssl_frees s.ssl after ≡ ssl_frees s.ssl trace + 1
  unfolding TlsSocket.destroy
  destroy-frees s trace after h e =
      let self : ℤ_eq s.ssl s.ssl ≡ true = (ℤ_eq_iff s.ssl s.ssl).1 refl in
      let freed : ssl_frees s.ssl (ssl_free s.ssl ∷ trace) ≡ ssl_frees s.ssl trace + 1 =
        rw self (omega arith) in
      let done : some (ok tt, ssl_free s.ssl ∷ trace) ≡ some (ok tt, after) = rw h at e in
      let same : ssl_free s.ssl ∷ trace ≡ after = cc done in ap (ssl_frees s.ssl) (sym same) ∙ freed

  module _ (t : Transport) where
    abbrev pub tls_socket_class : TlsSocketClass system t
    tls_socket_class = record {
      Object = TlsSocket;
      create = TlsSocket.create system;
      destroy = TlsSocket.destroy system;
      connect = TlsSocket.connect system;
      accept = TlsSocket.accept system;
      set_timeout = TlsSocket.set_timeout system;
      is_alive = TlsSocket.is_alive system;
      read_packet = λ s. read t;
      write_packet = λ s. write t;
      shutdown = TlsSocket.shutdown system;
      create_ssl = TlsSocket.create_ssl system;
      descriptor = λ s. s.socket_fd;
      ssl = λ s. s.ssl;
      read_returns = λ s. reading_returns t;
      write_returns = λ s. writing_returns t;
      create_quiet = create-Quiet system;
      accept_quiet = accept-Quiet system;
      destroy_quiet = destroy-Quiet system;
      destroy_frees = destroy-frees;
    }

-- A handshake on a descriptor: the object is made, accepts and is destroyed.
abbrev pub handshake_once :
    (system : System) (t : Transport) (class : TlsSocketClass system t)
    → ℤ
    → ℤ
    → Run Trace (Unit {0})
handshake_once system t class fd context =
    class.create fd context >>= λ o. class.accept o >>= λ p. class.destroy p.0

-- It returns, and leaves every descriptor open.
pub handshake_once-Quiet :
    (system : System) (t : Transport) (class : TlsSocketClass system t) (fd context : ℤ)
    → Quiet (handshake_once system t class fd context) Any
handshake_once-Quiet system t class fd context =
    >>=-Quiet (class.create fd context) _ (class.create_quiet fd context)
      λ o on. >>=-Quiet (class.accept o) _ (class.accept_quiet o) (λ p on'. class.destroy_quiet p.0)
