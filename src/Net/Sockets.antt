-- ===== src/Net/Sockets.antt =====
-- The classes ClientSocket and TLSSocket as implementations of the class Socket: ClientSocket.h,
-- ClientSocket.cpp, TLSSocket.h and TLSSocket.cpp.

use small_http_server.Base.{Bool, false, ◌≡◌, Option, none, some}
use small_http_server.Base.Int.{ℤ}
use small_http_server.Exceptions.{Result, ok, throw}
use small_http_server.Run.{Run}
use small_http_server.Text.{Buffer}
use small_http_server.Net.Transport.{Transport}
use small_http_server.Net.Read.{read}
use small_http_server.Net.Write.{write}
use small_http_server.Net.Connection.{reading_returns, writing_returns}
use small_http_server.Net.Socket.{Socket}
use small_http_server.Net.System.{System, Trace}
use small_http_server.Net.ClientSocket
use small_http_server.Net.ClientSocket.{ClientSocket}
use small_http_server.Net.TlsSocket
use small_http_server.Net.TlsSocket.{TlsSocket}

abbrev pub result_of : Option (Result Bool × Trace) → Bool
result_of (some (ok b, trace)) = b
result_of _ = false

module _ (system : System) (t : Transport) where
  -- An object, the calls that it makes on its descriptor, and the stream of its connection.
  pub record Object (A : Type 0) : Type 0 where
    pub this : A
    pub trace : Trace
    pub stream : t.State

  module _ {A : Type 0} where
    abbrev pub with_stream {ℓ} :
        {B : Type ℓ} → Object A → Option (Result B × t.State) → Option (Result B × Object A)
    with_stream o none = none
    with_stream o (some (r, s)) = some (r, record o { stream = s })

    -- ReadPacket and WritePacket.
    abbrev pub read_packet : Buffer → Run (Object A) (ℤ × Buffer)
    read_packet buffer o = with_stream o (read t buffer o.stream)

    abbrev pub write_packet : Buffer → Run (Object A) ℤ
    write_packet buffer o = with_stream o (write t buffer o.stream)

    -- A method of the object, which makes calls and does not throw.
    abbrev pub with_calls : {B : Type 0} → (B → A) → Object A → Option (Result B × Trace) → Object A
    with_calls this o none = o
    with_calls this o (some (ok b, trace)) = record o { this = this b; trace = trace }
    with_calls this o (some (throw e, trace)) = record o { trace = trace }

    pub read_packet_returns :
        (buffer : Buffer) (o : Object A)
        → (size : ℤ) × (left : Buffer) × (o' : Object A) × (read_packet buffer o
            ≡ some (ok (size, left), o'))
          × (t.delivered o'.stream ≡ t.delivered o.stream)
    read_packet_returns buffer o =
        let (size, left, s, e, quiet) = reading_returns t buffer o.stream in
        (size, left, record o { stream = s }, rw e, quiet)

    pub write_packet_returns :
        (buffer : Buffer) (o : Object A)
        → (size : ℤ) × (o' : Object A) × (write_packet buffer o ≡ some (ok size, o'))
    write_packet_returns buffer o =
        let (size, s, e) = writing_returns t buffer o.stream in
        (size, record o { stream = s }, rw e)

  -- class ClientSocket
  unfoldable pub client_set_timeout : Object ClientSocket → Object ClientSocket
  unfolding ClientSocket.set_timeout
  client_set_timeout o = with_calls (λ u. o.this) o (ClientSocket.set_timeout system o.this o.trace)

  unfoldable pub client_is_alive : Object ClientSocket → Bool × Object ClientSocket
  unfolding ClientSocket.is_alive
  client_is_alive o =
      let r = ClientSocket.is_alive system o.this o.trace in
      (result_of r, with_calls (λ b. o.this) o r)

  unfoldable pub client_close : Object ClientSocket → Object ClientSocket
  unfolding ClientSocket.close_socket
  client_close o = with_calls (λ c. c) o (ClientSocket.close_socket system o.this o.trace)

  abbrev pub client_socket : Socket
  client_socket = record {
    State = Object ClientSocket;
    read_packet = read_packet;
    write_packet = write_packet;
    set_timeout = client_set_timeout;
    is_alive = client_is_alive;
    close = client_close;
    delivered = λ o. t.delivered o.stream;
    read_returns = read_packet_returns;
    write_returns = write_packet_returns;
  }

  -- class TLSSocket
  unfoldable pub tls_set_timeout : Object TlsSocket → Object TlsSocket
  unfolding TlsSocket.set_timeout
  tls_set_timeout o = with_calls (λ u. o.this) o (TlsSocket.set_timeout system o.this o.trace)

  unfoldable pub tls_is_alive : Object TlsSocket → Bool × Object TlsSocket
  unfolding TlsSocket.is_alive
  tls_is_alive o =
      let r = TlsSocket.is_alive system o.this o.trace in
      (result_of r, with_calls (λ b. o.this) o r)

  unfoldable pub tls_close : Object TlsSocket → Object TlsSocket
  unfolding TlsSocket.destroy
  tls_close o = with_calls (λ u. o.this) o (TlsSocket.destroy system o.this o.trace)

  abbrev pub tls_socket : Socket
  tls_socket = record {
    State = Object TlsSocket;
    read_packet = read_packet;
    write_packet = write_packet;
    set_timeout = tls_set_timeout;
    is_alive = tls_is_alive;
    close = tls_close;
    delivered = λ o. t.delivered o.stream;
    read_returns = read_packet_returns;
    write_returns = write_packet_returns;
  }
