-- ===== src/Tests/Messages.antt =====
-- Messages, and what is read from them.
use small_http_server.Base.{◌≡◌, true, ◌++◌, some, arith, length}
use small_http_server.Exceptions.{ok}
use small_http_server.Text.{Buffer, codes, find}
use small_http_server.Text.Decimal.{value_from}
use small_http_server.Http.Packet.{Packet, connection_param, get_path, is_get_method, is_keep_alive}
use small_http_server.Http.Parser.{parse, extract_field, end_packet}
use small_http_server.Http.Message.{get_keep_alive_string, create_get, create200}
use small_http_server.Http.Message.ReadBack.{create200-fields, create200-body}
use small_http_server.Http.Message.RoundTrip.{parse-create_get}
use small_http_server.Http.ContentType.{get_content_type}
use small_http_server.Http.ContentType.Extension.{Extension, get_content_type-Extension}

abbrev body : Buffer
body = codes "<p>"

abbrev html_type : Buffer
html_type = codes "text/html"

create200-fields_example :
    ((digits : Buffer) × (extract_field (create200 body html_type true) (codes "Content-length")
        ≡ ok digits)
      × (value_from 0 digits ≡ 3))
    × (extract_field (create200 body html_type true) connection_param
        ≡ ok (get_keep_alive_string true))
    × (extract_field (create200 body html_type true) (codes "Content-Type") ≡ ok html_type)
create200-fields_example =
    create200-fields body b't' (codes "ext/html") true (ground arith) (ground arith)

create200-body_example :
    (before : Buffer) × (create200 body html_type true
      ≡ before ++ (end_packet ++ (body ++ end_packet)))
    × (find (create200 body html_type true) end_packet ≡ some (length before))
create200-body_example = create200-body body b't' (codes "ext/html") true (ground arith)

parse-create_get_example :
    (packet : Packet) × (parse (create_get (codes "127.0.0.1") (codes "80")) ≡ ok packet)
    × (get_path packet ≡ ok (codes "/index.html"))
    × (is_get_method packet ≡ ok true)
    × (is_keep_alive packet ≡ ok true)
parse-create_get_example =
    parse-create_get (codes "127.0.0.1") (codes "80") (ground arith) (ground arith)

get_content_type-Extension_example :
    Extension (codes "html/a.css") (get_content_type (codes "html/a.css"))
get_content_type-Extension_example = get_content_type-Extension (codes "html/a.css")
