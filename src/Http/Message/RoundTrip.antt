-- ===== src/Http/Message/RoundTrip.antt =====
-- The request that `CreateGET` writes, as `Parse` reads it.
use small_http_server.Base.{
  list_laws, ℕ, ◌≡◌, refl, ◌≢◌, true, List, [], ◌∷◌, ◌++◌, inl, arith, All, All-imp,
}
use small_http_server.Exceptions.{ok}
use small_http_server.Text.{Buffer, codes, crlf, str_eq}
use small_http_server.Text.Passing.{IsPassed, other-IsPassed, passes-IsPassed}
use small_http_server.Http.Packet.{
  Packet, connection_param, get_path, is_get_method, is_keep_alive, to_lower,
}
use small_http_server.Http.Message.{get_fields, create_get}
use small_http_server.Http.Message.Fields.{field_read}
use small_http_server.Http.Parser.{extract_field, parse}
use small_http_server.Http.Parser.Request.{parse-request, request_packet-getters}

-- A byte of a host's name or address, or of a port: none that the field names begin with, and no
-- line end.
abbrev pub IsHostByte : ℕ → Type 0
IsHostByte c = (c ≢ b'C') × (c ≢ 13)

module _ (host port : Buffer) where
  abbrev before_connection : List Buffer
  before_connection =
      codes "GET /index.html HTTP/1.1\r\nHost: " ∷ host ∷ codes ":" ∷ port ∷ crlf ∷ get_fields ∷ []

  before_connection-IsPassed :
      All IsHostByte host → All IsHostByte port → All (IsPassed connection_param) before_connection
  before_connection-IsPassed h p = (
    passes-IsPassed b'C' _ (codes "GET /index.html HTTP/1.1\r\nHost: ") refl,
    (
      other-IsPassed b'C' _ host (All-imp host (λ c k. k.0) h),
      (
        passes-IsPassed b'C' _ (codes ":") refl,
        (
          other-IsPassed b'C' _ port (All-imp port (λ c k. k.0) p),
          (passes-IsPassed b'C' _ crlf refl, (passes-IsPassed b'C' _ get_fields refl, tt)),
        ),
      ),
    ),
  )

  connection_read :
      All IsHostByte host
      → All IsHostByte port
      → extract_field (create_get host port) connection_param ≡ ok (codes "keep-alive")
  unfolding create_get
  connection_read h p =
      field_read (create_get host port) connection_param before_connection b'k' (codes "eep-alive")
        crlf (before_connection-IsPassed h p) (ground arith) (ground arith) (ground arith)
        (simp list_laws)

  abbrev fields : Buffer
  fields =
      codes "Host: "
      ++ (host
          ++ (codes ":"
              ++ (port ++ (crlf ++ (get_fields ++ (codes "Connection: keep-alive\r\n" ++ crlf))))))

  -- The request that `CreateGET` writes, for a host and a port without the byte 'C' and without a
  -- carriage return, is read back as a GET of "/index.html" on a connection that is kept.
  pub parse-create_get :
      All IsHostByte host
      → All IsHostByte port
      → (packet : Packet) × (parse (create_get host port) ≡ ok packet)
        × (get_path packet ≡ ok (codes "/index.html"))
        × (is_get_method packet ≡ ok true)
        × (is_keep_alive packet ≡ ok true)
  unfolding create_get str_eq to_lower
  parse-create_get h p =
      let (path, method, alive) =
        request_packet-getters (codes "GET") (codes "/index.html") b' ' (codes "HTTP/1.1") fields
          (codes "keep-alive") in
      (
        _,
        parse-request (codes "GET") (codes "/index.html") b' ' (codes "HTTP/1.1") fields
            (codes "keep-alive") (ground arith) (ground arith) (inl refl) (ground arith)
            (connection_read h p),
        path,
        method,
        alive,
      )
