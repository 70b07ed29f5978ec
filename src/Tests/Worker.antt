-- ===== src/Tests/Worker.antt =====
-- Requests, and the rounds that serve them.
use mathlib.Core.Option
use small_http_server.Base.{
  ℕ, ◌≡◌, refl, true, false, [], ◌∷◌, Option, none, some, arith, length, if◌then◌else◌,
}
use small_http_server.Base.Int.{pos}
use small_http_server.Exceptions.{Result, ok, parse_exception}
use small_http_server.Text
use small_http_server.Text.{Buffer, codes, str_eq}
use small_http_server.Http.Packet
use small_http_server.Http.Packet.{Packet, get_path, connection_param, command_param, path_param}
use small_http_server.Http.Parser
use small_http_server.Http.Parser.{parse}
use small_http_server.Http.Parser.Request.{Refused, parse_throw_iff}
use small_http_server.Http.Message.{create200}
use small_http_server.Http.ContentType.{get_content_type}
use small_http_server.Worker.Process.{c_str, process_get}
use small_http_server.Worker.Serve.{serve, serve_request, worker_turn, died}
use small_http_server.Worker.Replies.{Reply, file, TakesAll, Replies, process_get-Replies}
use small_http_server.Worker.Requests.{Arrived, worker_turn-Refused}
use small_http_server.Worker.Answers.{serve_request_get}
use small_http_server.Worker.Termination.{serve_returns}
use small_http_server.Tests.Peers.{Session, client, client_finite}

-- A file above the directory "html".
abbrev pub open_file : Buffer → Option Buffer
unfolding str_eq
open_file name = if str_eq name (codes "html/../a.txt") then some (codes "secret") else none

abbrev pub directory : Buffer
directory = codes "html"

client-TakesAll : TakesAll client
client-TakesAll message s = (_, refl, refl)

abbrev above_path : Buffer
above_path = codes "/../a.txt"

abbrev packet_of : Buffer → Buffer → Packet
packet_of command path = record {
  params = (command_param, command) ∷ (path_param, path) ∷ (connection_param, codes "close") ∷ [];
}

abbrev above_packet : Packet
above_packet = packet_of (codes "GET") above_path

abbrev silent : Session
silent = record { inbox = []; outbox = [] }

process_get-Replies_example :
    Replies open_file directory above_path client client-TakesAll silent
      (process_get open_file client above_packet directory silent)
unfolding get_path Packet.at str_eq
process_get-Replies_example =
    process_get-Replies open_file directory above_path client client-TakesAll above_packet silent
      refl

-- A client that sends one request.
abbrev pub sends : Buffer → Session
sends request = record { inbox = request ∷ []; outbox = [] }

abbrev post_request : Buffer
post_request = codes "POST /a X\r\nConnection: close\r\n\r\n"

abbrev get_request : Buffer
get_request = codes "GET /../a.txt X\r\nConnection: close\r\n\r\n"

above-Reply :
    Reply open_file directory above_path (create200 (codes "secret") (codes "text/plain") true) true
unfolding open_file str_eq get_content_type Text.rfind Text.substr_to_end Packet.at c_str
above-Reply = file (codes "text/plain") (codes "secret") (omega arith) (λ e. cc) refl refl

serve_request_get_example :
    (s : Session) × (serve_request open_file client directory (sends get_request)
      ≡ some (ok (some false), s))
    × (s.outbox ≡ create200 (codes "secret") (codes "text/plain") true)
unfolding parse Text.find_from Text.find Text.starts_with Text.substr Parser.parse_header
    Text.find_first_of Text.find_if Text.contains Parser.extract_field Option.bind
    Text.find_first_not_of Packet.add_param Packet.insert str_eq Packet.is_get_method Packet.at
    Packet.is_keep_alive Packet.to_lower get_path
serve_request_get_example =
    serve_request_get open_file directory above_path client client-TakesAll (sends get_request)
      get_request silent above_packet false true
      (create200 (codes "secret") (codes "text/plain") true)
      (record {
        before = sends get_request;
        size = pos (length get_request);
        alive = refl;
        read_it = refl;
        some_bytes = refl;
      })
      refl refl refl refl above-Reply

abbrev pub bad_request : Buffer
bad_request = codes "GET"

pub bad_request-Refused : Refused bad_request (parse_exception "\r\n wasn't found")
unfolding parse Text.find_from Text.find Text.starts_with
bad_request-Refused = (parse_throw_iff bad_request (parse_exception "\r\n wasn't found")).0 refl

pub bad_request-Arrived : Arrived open_file client directory (sends bad_request) bad_request silent
bad_request-Arrived = record {
  before = sends bad_request;
  size = pos 3;
  alive = refl;
  read_it = refl;
  some_bytes = refl;
}

worker_turn-Refused_example :
    (worker_turn open_file client directory (λ k. false) 1 0 (some (sends bad_request))
      ≡ some (record { ending = died (parse_exception "\r\n wasn't found"); closed = some silent }))
    × (client.delivered silent ≡ [])
unfolding bad_request-Arrived
worker_turn-Refused_example =
    worker_turn-Refused open_file client directory (λ k. false) 0 0 (sends bad_request) bad_request
      silent (parse_exception "\r\n wasn't found") refl refl bad_request-Arrived bad_request-Refused

serve_returns_example :
    (r : Result ℕ × Session) × (serve open_file client directory
        (λ k. false)
        2
        true
        0
        (sends post_request)
      ≡ some r)
serve_returns_example =
    serve_returns open_file client directory client_finite (λ k. false) 2 true 0
      (sends post_request) (omega arith)
