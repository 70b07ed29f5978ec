-- ===== src/Net/Connection.antt =====
-- The socket of a connection: ReadPacket and WritePacket of ClientSocket.cpp and of TLSSocket.cpp,
-- which are the templates `Read` and `Write` on the connection's calls.
pub mod Preserved
use small_http_server.Base.{Bool, ◌≡◌, some}
use small_http_server.Base.Int.{ℤ}
use small_http_server.Exceptions.{ok}
use small_http_server.Text.{Buffer}
use small_http_server.Net.Transport.{Transport}
use small_http_server.Net.Read.{read}
use small_http_server.Net.Read.Outcome.{ReadEnd, packet, closed, broken, read-ReadEnd}
use small_http_server.Net.Write.{write}
use small_http_server.Net.Write.Outcome.{write-WriteEnd}
use small_http_server.Net.Socket.{Socket}

ReadEnd-quiet :
    (t : Transport) (s : t.State) (size : ℤ) (left : Buffer) (s' : t.State)
    → ReadEnd t s size left s'
    → t.delivered s' ≡ t.delivered s
ReadEnd-quiet t s size left s' (packet _ b l c q) = q
ReadEnd-quiet t s size left s' (closed _ at before b r c q) = q
ReadEnd-quiet t s size left s' (broken _ at code before b r c q) = q

module _ (t : Transport) where
  pub reading_returns :
      (buffer : Buffer) (s : t.State)
      → (size : ℤ) × (left : Buffer) × (s' : t.State) × (read t buffer s
          ≡ some (ok (size, left), s'))
        × (t.delivered s' ≡ t.delivered s)
  reading_returns buffer s =
      let (size, left, s', e, end) = read-ReadEnd t buffer s in
      (size, left, s', e, ReadEnd-quiet t s size left s' end)

  pub writing_returns :
      (buffer : Buffer) (s : t.State)
      → (size : ℤ) × (s' : t.State) × (write t buffer s ≡ some (ok size, s'))
  writing_returns buffer s = let (size, s', e, end) = write-WriteEnd t buffer s in (size, s', e)

module _ (t : Transport) (set_timeout close : t.State → t.State)
    (is_alive : t.State → Bool × t.State) where
  abbrev pub connection : Socket
  connection = record {
    State = t.State;
    read_packet = read t;
    write_packet = write t;
    set_timeout = set_timeout;
    is_alive = is_alive;
    close = close;
    delivered = t.delivered;
    read_returns = reading_returns t;
    write_returns = writing_returns t;
  }
