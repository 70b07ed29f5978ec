-- ===== src/Tests/Descriptors.antt =====
-- Rounds on objects of the classes ClientSocket and TLSSocket, and objects of the other classes.
use small_http_server.Base.{ℕ, ◌+◌, ◌≡◌, refl, false, List, [], ◌∷◌, Option, none, some}
use small_http_server.Base.Int.{ℤ, pos, minus_one}
use small_http_server.Net.System.{
  ssl_frees, Trace, closes, ssl_free, select, set_receive_timeout, set_send_timeout, shutdown,
  close,
}
use small_http_server.Net.ClientSocket.{ClientSocket}
use small_http_server.Net.TlsSocket.{TlsSocket}
use small_http_server.Net.Sockets.{
  Object, client_socket, tls_socket, client_close, client_is_alive, client_set_timeout, tls_close,
  tls_is_alive, tls_set_timeout,
}
use small_http_server.Exceptions.{Result, ok}
use small_http_server.Net.ServerSocket.{ServerSocket}
use small_http_server.Net.Server.{create, add_socket, destroy}
use small_http_server.Net.Server.Descriptors.{holders}
use small_http_server.Net.Server.Class.{server_class}
use small_http_server.Net.Server.Lifetime.{lifetime, server_lifetime-closes}
use small_http_server.Stack.Class.{locked_stack}
use small_http_server.Stack.Order.{add_all, get_all, stack_get_all-add_all}
use small_http_server.Worker.Serve.{Turn, looping, worker_turn, serve_request}
use small_http_server.Worker.Descriptors.{client_turn-closes, tls_turn-closes}
use small_http_server.Tests.Peers.{Wire, wire, answers}
use small_http_server.Tests.Worker.{open_file, directory}
use small_http_server.Tests.Program.{never}

-- A connection that is silent: `select` answers 0.
abbrev silent : Wire
silent = record { chunks = []; got = []; out = [] }

abbrev plain : Object (answers (pos 0)) wire ClientSocket
plain = record { this = record { socket_fd = pos 7 }; trace = []; stream = silent }

abbrev plain_turn : Turn open_file (client_socket (answers (pos 0)) wire) directory never
plain_turn = record {
  ending = looping 3;
  closed = some (record {
    this = record { socket_fd = minus_one };
    trace =
        close (pos 7)
        ∷ shutdown (pos 7)
        ∷ select (pos 7) 1
        ∷ set_send_timeout (pos 7) 5
        ∷ set_receive_timeout (pos 7) 5
        ∷ [];
    stream = silent;
  });
}

plain-runs :
    worker_turn open_file (client_socket (answers (pos 0)) wire) directory never 1 0 (some plain)
    ≡ some plain_turn
unfolding worker_turn client_close client_is_alive client_set_timeout serve_request
plain-runs = refl

client_turn-closes_example :
    (c : Object (answers (pos 0)) wire ClientSocket) × (plain_turn.closed ≡ some c)
    × (c.this.socket_fd ≡ minus_one)
    × (closes (pos 7) c.trace ≡ closes (pos 7) plain.trace + 1)
client_turn-closes_example =
    client_turn-closes (answers (pos 0)) wire open_file directory never plain 1 0 plain_turn refl
      plain-runs

abbrev secure : Object (answers (pos 0)) wire TlsSocket
secure = record {
  this = record { ssl = pos 5; socket_fd = pos 7; context = pos 9 };
  trace = [];
  stream = silent;
}

abbrev secure_turn : Turn open_file (tls_socket (answers (pos 0)) wire) directory never
secure_turn = record {
  ending = looping 3;
  closed = some (record secure {
    trace =
        ssl_free (pos 5)
        ∷ select (pos 7) 5
        ∷ set_send_timeout (pos 7) 5
        ∷ set_receive_timeout (pos 7) 5
        ∷ [];
  });
}

secure-runs :
    worker_turn open_file (tls_socket (answers (pos 0)) wire) directory never 1 0 (some secure)
    ≡ some secure_turn
unfolding worker_turn tls_close tls_is_alive tls_set_timeout serve_request
secure-runs = refl

tls_turn-closes_example :
    (c : Object (answers (pos 0)) wire TlsSocket) × (secure_turn.closed ≡ some c)
    × (ssl_frees (pos 5) c.trace ≡ ssl_frees (pos 5) secure.trace + 1)
    × ((fd : ℤ) → closes fd c.trace ≡ closes fd secure.trace)
tls_turn-closes_example =
    tls_turn-closes (answers (pos 0)) wire open_file directory never secure 1 0 secure_turn refl
      secure-runs

abbrev listener : ℕ → ServerSocket
listener fd = record { socket_fd = pos fd; secure = false }

abbrev listeners : List ServerSocket
listeners = listener 3 ∷ listener 5 ∷ []

-- What is left of the calls of a server that is given both.
abbrev lifetime_end : Option (Result (Unit {0}) × Trace) → Trace
lifetime_end (some (r, trace)) = trace
lifetime_end none = []

abbrev lifetime_calls : Trace
unfolding create add_socket destroy
lifetime_calls =
    lifetime_end (lifetime (answers (pos 1)) (server_class (answers (pos 1))) listeners [])

lifetime-runs :
    lifetime (answers (pos 1)) (server_class (answers (pos 1))) listeners []
    ≡ some (ok tt, lifetime_calls)
unfolding lifetime_calls create add_socket destroy
lifetime-runs = refl

server_lifetime-closes_example : closes (pos 5) lifetime_calls ≡ holders (pos 5) listeners + 0
server_lifetime-closes_example =
    server_lifetime-closes (answers (pos 1)) (pos 5) listeners [] lifetime_calls refl lifetime-runs

stack_get_all-add_all_example :
    ((get_all (locked_stack ℕ) 2 (add_all (locked_stack ℕ) (some 1 ∷ some 2 ∷ []) (some 0 ∷ []))).0
      ≡ some 2 ∷ some 1 ∷ [])
    × ((get_all
          (locked_stack ℕ)
          2
          (add_all (locked_stack ℕ) (some 1 ∷ some 2 ∷ []) (some 0 ∷ []))).1
        ≡ some 0 ∷ [])
stack_get_all-add_all_example = stack_get_all-add_all (some 1 ∷ some 2 ∷ []) (some 0 ∷ [])
