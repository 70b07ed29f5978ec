-- ===== src/Http/Message.antt =====
-- namespaces HTTPRequest and HTTPResponses of HTTPPacket.cpp.
pub mod Fields
pub mod ReadBack
pub mod RoundTrip
use small_http_server.Base.{Bool, ◌++◌, false, if◌then◌else◌, length, true}
use small_http_server.Text.{Buffer, codes, crlf, to_string}

unfoldable pub get_keep_alive_string : Bool → Buffer
get_keep_alive_string is_keep_alive = if is_keep_alive then codes "keep-alive" else codes "close"

-- The fields of the request after the host's.
abbrev pub get_fields : Buffer
get_fields =
    codes
      "User-Agent: Mozilla/5.0 (X11; Ubuntu; Linux x86_64; rv:35.0) Gecko/20100101 Firefox/35.0\r\n"
    ++ codes "Accept: text/html,application/xhtml+xml,application/xml;q=0.9,*//*;q=0.8\r\n"
    ++ codes "Accept-Language: en-US,en;q=0.5\r\n"
    ++ codes "Accept-Encoding: gzip, deflate\r\n"

unfoldable pub create_get : Buffer → Buffer → Buffer
create_get host port =
    codes "GET /index.html HTTP/1.1\r\n"
    ++ (codes "Host: "
        ++ (host
            ++ (codes ":"
                ++ (port
                    ++ (crlf ++ (get_fields ++ (codes "Connection: keep-alive\r\n" ++ crlf)))))))

unfoldable pub create200 : Buffer → Buffer → Bool → Buffer
unfolding get_keep_alive_string
create200 data_file content_type is_keep_alive =
    codes "HTTP/1.0 200 OK\r\n"
    ++ (codes "Content-length: "
        ++ (to_string (length data_file)
            ++ (crlf
                ++ (codes "Connection: "
                    ++ (get_keep_alive_string is_keep_alive
                        ++ (crlf
                            ++ (codes "Content-Type: "
                                ++ (content_type
                                    ++ (crlf ++ (crlf ++ (data_file ++ (crlf ++ crlf))))))))))))

unfoldable pub create400 : Bool → Buffer
unfolding get_keep_alive_string
create400 is_keep_alive =
    codes "HTTP/1.0 400 Bad Request\r\n"
    ++ (codes "Connection: "
        ++ (get_keep_alive_string is_keep_alive
            ++ (crlf ++ codes "Content-Length: 11\r\n\r\nBad Request\r\n\r\n")))

abbrev pub not_found_body : Buffer
not_found_body =
    codes
      "<html> <head> <title>Not Found</title> </head> <body> <p>404 Request file not found.</p></body></html>"

unfoldable pub create404 : Bool → Buffer
unfolding get_keep_alive_string
create404 is_keep_alive =
    codes "HTTP/1.0 404 Not Found\r\n"
    ++ (codes "Content-Type: text/html\r\n"
        ++ (codes "Content-length: "
            ++ (to_string (length not_found_body)
                ++ (crlf
                    ++ (codes "Connection: "
                        ++ (get_keep_alive_string is_keep_alive
                            ++ (crlf ++ (crlf ++ (not_found_body ++ (crlf ++ crlf))))))))))

-- With the default arguments of HTTPPacket.h.
abbrev pub create200_default : Buffer → Buffer → Buffer
create200_default data_file content_type = create200 data_file content_type true

abbrev pub create400_default : Buffer
create400_default = create400 false

abbrev pub create404_default : Buffer
create404_default = create404 false
