-- ===== src/Tests/Serving.antt =====
-- Connections that are accepted, and a stream that is served.
use small_http_server.Base.{
  ℕ, ◌+◌, ◌≤◌, ◌≡◌, refl, ap, true, false, List, [], ◌∷◌, Option, some, arith, length,
  length-append, length-take, take,
}
use small_http_server.Base.Int.{ℤ, pos}
use small_http_server.Exceptions.{Result, ok}
use small_http_server.Text.{Buffer, codes}
use small_http_server.Net.System.{Trace, closes}
use small_http_server.Net.Acceptor
use small_http_server.Net.Acceptor.{Acceptor, Connection}
use small_http_server.Net.Acceptor.Given.{Given, apply-Given}
use small_http_server.Net.Connection.{connection}
use small_http_server.Net.Server.{Server, take_event, wait_loop}
use small_http_server.Net.Server.Wait.{Taken, take_event-Taken, wait_loop-returns}
use small_http_server.Worker.Serve.{serve}
use small_http_server.Worker.Stream.{FiniteStream, stream_serve-returns}
use small_http_server.Tests.Peers.{Wire, next_chunk, wire, answers}
use small_http_server.Tests.Worker.{open_file, directory}

abbrev acceptor : Acceptor
acceptor = record { master = pos 3; context = some (pos 9) }

apply-Given_example :
    (c : Option Connection) × (after : Trace) × (Acceptor.apply (answers (pos 5)) acceptor []
      ≡ some (ok c, after))
    × Given (answers (pos 5)) acceptor [] c
    × ((fd : ℤ) → closes fd after ≡ closes fd [])
apply-Given_example = apply-Given (answers (pos 5)) acceptor []

abbrev server : Server
server = record {
  epoll = pos 4;
  server_sockets = record { socket_fd = pos 3; secure = true } ∷ [];
  tls_context = record { ctx = pos 9 };
}

take_event-Taken_example :
    Taken
      (answers (pos 0))
      server
      (pos 7 ∷ pos 3 ∷ [])
      []
      (take_event (answers (pos 0)) server (pos 7 ∷ pos 3 ∷ []) [])
take_event-Taken_example = take_event-Taken (answers (pos 0)) server (pos 7 ∷ pos 3 ∷ []) []

wait_loop-returns_example :
    (r : Result (Option Connection)) × (after : Trace) × (wait_loop
        (answers (pos 0))
        (λ k. true)
        server
        1
        0
        []
      ≡ some (r, after))
wait_loop-returns_example =
    wait_loop-returns (answers (pos 0)) (λ k. true) server 1 0 0 [] (omega arith) refl

abbrev total : List Buffer → ℕ
total [] = 0
total (c ∷ cs) = length c + total cs

chunk_uses :
    (n : ℕ) (cs : List Buffer) (w : Wire)
    → cs ≡ w.chunks
    → total (next_chunk n cs w).1.chunks + length (next_chunk n cs w).1.got
      ≤ total cs + length w.got
chunk_uses n [] w e = omega (arith, ap total e)
chunk_uses n (c ∷ cs) w e = omega (arith, length-append w.got (take n c), length-take n c)

byte_keeps : (bytes : Buffer) (w : Wire) → total (wire.send bytes w).1.chunks ≤ total w.chunks
byte_keeps [] w = omega arith
byte_keeps (b ∷ bytes) w = omega arith

wire_ends : FiniteStream wire
wire_ends = record {
  left = λ w. total w.chunks;
  recv_uses = λ n w. chunk_uses n w.chunks w refl;
  send_keeps = byte_keeps;
}

abbrev one_request : Wire
one_request = record { chunks = codes "GET /a.css X\r\n\r\n" ∷ []; got = []; out = [] }

alive_keeps : (w : Wire) → total w.chunks ≤ total w.chunks
alive_keeps w = omega arith

stream_serve-returns_example :
    (r : Result ℕ × Wire) × (serve open_file
        (connection wire (λ w. w) (λ w. w) (λ w. (true, w)))
        directory
        (λ k. false)
        30
        true
        0
        one_request
      ≡ some r)
unfolding wire_ends
stream_serve-returns_example =
    stream_serve-returns wire wire_ends (λ w. w) (λ w. w) (λ w. (true, w)) alive_keeps open_file
      directory (λ k. false) 30 true 0 one_request (omega arith)
