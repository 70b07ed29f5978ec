-- ===== src/Http/Namespaces.antt =====
-- The namespaces of HTTPPacket.h, as Worker and the tests see them, and those of HTTPPacket.cpp as
-- their implementations.
use small_http_server.Base.{
  ℕ, ◌≤◌, ◌≡◌, ◌⊎◌, ◌↔◌, Bool, true, List, ◌∷◌, ◌++◌, Option, some, length, take, All,
}
use small_http_server.Exceptions.{Exception, Result, ok, throw}
use small_http_server.Text.{Buffer, codes, crlf, find}
use small_http_server.Http.Packet.{Packet, get_path, is_get_method, is_keep_alive}
use small_http_server.Http.Parser.{end_packet, extract_field, is_blank_line, parse, split}
use small_http_server.Http.Parser.Field.{IsNotReturn}
use small_http_server.Http.Parser.Request.{Refused, parse_throw_iff}
use small_http_server.Http.Parser.BlankLine.{EndsBlank, is_blank_line_iff}
use small_http_server.Http.Parser.Lines.{IsLine, join_lines, split-Cuts}
use small_http_server.Http.Message.{create_get, create200, create400, create404}
use small_http_server.Http.Message.ReadBack.{create200-body}
use small_http_server.Http.Message.RoundTrip.{IsHostByte, parse-create_get}
use small_http_server.Http.ContentType.{get_content_type}
use small_http_server.Http.ContentType.Extension.{Extension, get_content_type-Extension}

pub record HttpPacket : Type 0 where
  pub extract_field : Buffer → Buffer → Result Buffer
  pub is_blank_line : ℕ → Buffer → Result Bool
  pub parse : Buffer → Result Packet
  pub split : Buffer → Option (Result (List Buffer))
  pub blank_line :
      (offset : ℕ) (buffer : Buffer)
      → offset ≤ length buffer
      → (is_blank_line offset buffer ≡ ok true) ↔ EndsBlank (take offset buffer)
  pub parse_throws : (buffer : Buffer) (e : Exception) → (parse buffer ≡ throw e) ↔ Refused buffer e
  pub split_cuts :
      (buffer : Buffer)
      → (ls : List Buffer) × (split buffer ≡ some (ok ls))
        × All IsLine ls
        × ((join_lines ls ≡ buffer) ⊎ (join_lines ls ++ crlf ≡ buffer))

-- What is written is read by an implementation of the namespace HTTPPacket.
pub record HttpRequest (packets : HttpPacket) : Type 0 where
  pub create_get : Buffer → Buffer → Buffer
  pub create_get_read :
      (host port : Buffer)
      → All IsHostByte host
      → All IsHostByte port
      → (packet : Packet) × (packets.parse (create_get host port) ≡ ok packet)
        × (get_path packet ≡ ok (codes "/index.html"))
        × (is_get_method packet ≡ ok true)
        × (is_keep_alive packet ≡ ok true)

pub record HttpResponses : Type 0 where
  pub create200 : Buffer → Buffer → Bool → Buffer
  pub create400 : Bool → Buffer
  pub create404 : Bool → Buffer
  pub create200_read :
      (body : Buffer) (t : ℕ) (ts : Buffer) (is_keep_alive : Bool)
      → All IsNotReturn (t ∷ ts)
      → (before : Buffer) × (create200 body (t ∷ ts) is_keep_alive
          ≡ before ++ (end_packet ++ (body ++ end_packet)))
        × (find (create200 body (t ∷ ts) is_keep_alive) end_packet ≡ some (length before))

pub record FileHelper : Type 0 where
  pub get_content_type : Buffer → Result Buffer
  pub content_type_of : (name : Buffer) → Extension name (get_content_type name)

abbrev pub http_packet : HttpPacket
http_packet = record {
  extract_field = extract_field;
  is_blank_line = is_blank_line;
  parse = parse;
  split = split;
  blank_line = is_blank_line_iff;
  parse_throws = parse_throw_iff;
  split_cuts = split-Cuts;
}

abbrev pub http_request : HttpRequest http_packet
http_request = record { create_get = create_get; create_get_read = parse-create_get }

abbrev pub http_responses : HttpResponses
http_responses = record {
  create200 = create200;
  create400 = create400;
  create404 = create404;
  create200_read = create200-body;
}

abbrev pub file_helper : FileHelper
file_helper = record {
  get_content_type = get_content_type;
  content_type_of = get_content_type-Extension;
}

-- Two implementations refuse the same buffers, with the same exceptions.
pub parse-same :
    (p q : HttpPacket) (buffer : Buffer) (e : Exception)
    → p.parse buffer ≡ throw e
    → q.parse buffer ≡ throw e
parse-same p q buffer e h = (q.parse_throws buffer e).1 ((p.parse_throws buffer e).0 h)
