-- ===== src/Tests/Http.antt =====
-- Requests and their parts.
use small_http_server.Base.{◌≡◌, refl, ◌⊎◌, ◌↔◌, inl, true, List, ◌++◌, some, arith, All}
use small_http_server.Exceptions.{ok, throw, parse_exception}
use mathlib.Core.Option
use small_http_server.Text
use small_http_server.Text.{Buffer, codes, crlf, find, starts_with}
use small_http_server.Http.Parser.{
  end_packet, is_blank_line, parse_header, extract_field, parse, split,
}
use small_http_server.Http.Parser.Header.{HeaderLine, parse_header_iff}
use small_http_server.Http.Parser.Request.{
  request, request_packet, parse-request, Refused, parse_throw_iff,
}
use small_http_server.Http.Parser.Lines.{IsLine, join_lines, split-Cuts}
use small_http_server.Http.Parser.BlankLine.{EndsBlank, is_blank_line_iff}

parse_throw_iff_example :
    (parse (codes "GET /a\r\n") ≡ throw (parse_exception "doesn't find ' ?'"))
    ↔ Refused (codes "GET /a\r\n") (parse_exception "doesn't find ' ?'")
parse_throw_iff_example = parse_throw_iff (codes "GET /a\r\n") (parse_exception "doesn't find ' ?'")

abbrev get_command : Buffer
get_command = codes "GET"

abbrev file_path : Buffer
file_path = codes "/a.css"

abbrev version : Buffer
version = codes "HTTP/1.1"

abbrev fields : Buffer
fields = codes "Connection: close\r\n\r\n"

parse-request_example :
    parse (request get_command file_path b' ' version fields (codes "close"))
    ≡ ok (request_packet get_command file_path b' ' version fields (codes "close"))
unfolding extract_field Text.find_from find starts_with Text.find_first_not_of Text.find_if
    Text.contains Text.substr Option.bind
parse-request_example =
    parse-request get_command file_path b' ' version fields (codes "close") (ground arith)
      (ground arith) (inl refl) (ground arith) refl

parse_header_iff_example :
    (parse_header (codes "GET") ≡ throw (parse_exception "doesn't find ' '"))
    ↔ HeaderLine (codes "GET") (throw (parse_exception "doesn't find ' '"))
parse_header_iff_example =
    parse_header_iff (codes "GET") (throw (parse_exception "doesn't find ' '"))

split-Cuts_example :
    (ls : List Buffer) × (split (codes "a\r\nb") ≡ some (ok ls))
    × All IsLine ls
    × ((join_lines ls ≡ codes "a\r\nb") ⊎ (join_lines ls ++ crlf ≡ codes "a\r\nb"))
split-Cuts_example = split-Cuts (codes "a\r\nb")

is_blank_line_iff_example : (is_blank_line 4 end_packet ≡ ok true) ↔ EndsBlank end_packet
is_blank_line_iff_example = is_blank_line_iff 4 end_packet (omega arith)
