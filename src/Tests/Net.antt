-- ===== src/Tests/Net.antt =====
-- Reading, writing and the descriptors.
use small_http_server.Base.{◌≡◌, refl, true, false, [], ◌∷◌, some, arith}
use small_http_server.Base.Int.{ℤ, pos, negsuc}
use small_http_server.Exceptions.{Result, ok}
use small_http_server.Text
use small_http_server.Text.{Buffer, codes}
use small_http_server.Http.Parser.BlankLine.{EndsBlank, is_blank_line_iff}
use small_http_server.Http.Parser.{is_blank_line}
use small_http_server.Net.Read.{read}
use small_http_server.Net.Read.Outcome.{ReadEnd, read-ReadEnd}
use small_http_server.Net.Read.Calls.{read_hidden_blank}
use small_http_server.Net.Write.{write}
use small_http_server.Net.Write.Outcome.{WriteEnd, write-WriteEnd}
use small_http_server.Net.System.{Trace}
use small_http_server.Net.TlsContext.Ownership.{frees, life_of, life_of-frees}
use small_http_server.Net.ServerSocket
use small_http_server.Net.ServerSocket.{ServerSocket}
use small_http_server.Net.ServerSocket.Setup.{Created, create-Created}
use small_http_server.Net.Server.{Server}
use small_http_server.Tests.Peers.{Wire, wire, answers}

abbrev blank_request : Buffer
blank_request = codes "GET\r\n\r\n"

abbrev one_chunk : Wire
one_chunk = record { chunks = blank_request ∷ []; got = []; out = [] }

read-ReadEnd_example :
    (size : ℤ) × (left : Buffer) × (w : Wire) × (read wire [] one_chunk ≡ some (ok (size, left), w))
    × ReadEnd wire one_chunk size left w
read-ReadEnd_example = read-ReadEnd wire [] one_chunk

write-WriteEnd_example :
    (size : ℤ) × (w : Wire) × (write wire blank_request one_chunk ≡ some (ok size, w))
    × WriteEnd wire blank_request one_chunk size w
write-WriteEnd_example = write-WriteEnd wire blank_request one_chunk

-- A request with a byte behind its blank line.
abbrev long_request : Buffer
long_request = codes "GET\r\n\r\nx"

abbrev long_chunk : Wire
long_chunk = record { chunks = long_request ∷ []; got = []; out = [] }

abbrev long_taken : Wire
long_taken = record { chunks = []; got = long_request; out = [] }

long_request_test : is_blank_line 8 long_request ≡ ok false
unfolding is_blank_line Text.substr Text.str_eq
long_request_test = refl

long_request-not-EndsBlank : ¬ EndsBlank long_request
long_request-not-EndsBlank blank =
    let test = (is_blank_line_iff 8 long_request (omega arith)).1 blank in
    cc (test, long_request_test)

read_hidden_blank_example :
    (left : Buffer) × (read wire [] long_chunk ≡ some (ok (negsuc 10, left), long_taken))
read_hidden_blank_example =
    read_hidden_blank wire [] long_request long_chunk long_taken long_taken 10 (λ e. cc)
      long_request-not-EndsBlank refl refl

life_of-frees_example : frees (pos 5) (life_of (answers (pos 5)) true) ≡ 1
life_of-frees_example = life_of-frees (answers (pos 5)) true refl

create-Created_example :
    (r : Result ServerSocket) × (after : Trace) × (ServerSocket.create
        (answers (pos 1))
        (codes "127.0.0.1")
        (codes "ip4")
        (pos 8080)
        false
        true
        []
      ≡ some (r, after))
    × Created (answers (pos 1)) (codes "127.0.0.1") (codes "ip4") (pos 8080) false true [] r after
create-Created_example =
    create-Created (answers (pos 1)) (codes "127.0.0.1") (codes "ip4") (pos 8080) false true []

abbrev one_server : Server
one_server = record {
  epoll = pos 4;
  server_sockets = record { socket_fd = pos 3; secure = false } ∷ [];
  tls_context = record { ctx = pos 9 };
}
