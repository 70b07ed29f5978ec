-- ===== src/Http/Message/ReadBack.antt =====
-- What a client reads from a response with a file.
use small_http_server.Base.{
  list_laws, ℕ, ◌≡◌, refl, sym, ap, subst, ◌∙◌, Bool, List, [], ◌∷◌, ◌++◌, some, arith, length, All,
  All-imp,
}
use small_http_server.Exceptions.{ok}
use small_http_server.Text.{Buffer, codes, crlf, find, to_string}
use small_http_server.Text.Passing.{
  IsPassed, concat, concat-IsPassed, IsPassed-find, other-IsPassed, passes-IsPassed,
}
use small_http_server.Text.Decimal.{IsDigit, value_from, to_string-value, to_string-IsDigit}
use small_http_server.Http.Packet.{connection_param}
use small_http_server.Http.Message.{get_keep_alive_string, create200}
use small_http_server.Http.Parser.{extract_field, end_packet}
use small_http_server.Http.Parser.Header.{IsNotSpace}
use small_http_server.Http.Parser.Field.{IsNotReturn}
use small_http_server.Http.Message.Fields.{
  digits-IsPassed, keep_alive-Other, to_string-cons, keep_alive-cons, field_read,
}

abbrev length_field : Buffer
length_field = codes "Content-length"

abbrev type_field : Buffer
type_field = codes "Content-Type"

abbrev status_line : Buffer
status_line = codes "HTTP/1.0 200 OK\r\n"

module _ (body : Buffer) (t : ℕ) (ts : Buffer) (is_keep_alive : Bool) where
  abbrev message : Buffer
  message = create200 body (t ∷ ts) is_keep_alive

  -- The message behind the value of each field.
  abbrev after_type : Buffer
  after_type = crlf ++ (body ++ (crlf ++ crlf))

  abbrev after_connection : Buffer
  after_connection = codes "Content-Type: " ++ ((t ∷ ts) ++ (crlf ++ after_type))

  abbrev after_length : Buffer
  after_length =
      codes "Connection: " ++ (get_keep_alive_string is_keep_alive ++ (crlf ++ after_connection))

  length_read :
      (v : ℕ) (vs : Buffer)
      → to_string (length body) ≡ v ∷ vs
      → extract_field message length_field ≡ ok (v ∷ vs)
  unfolding create200
  length_read v vs e =
      let digits_only : All IsDigit (v ∷ vs) =
        subst (All IsDigit) e (to_string-IsDigit (length body)) in
      field_read message length_field (status_line ∷ []) v vs after_length
        (passes-IsPassed b'C' _ status_line refl, tt) (ground arith) (ground arith)
        (All-imp (v ∷ vs) (λ c d. ground arith) digits_only) (rw e)

  -- The texts that stand before the Connection field and before the Content-Type field.
  abbrev before_connection : List Buffer
  before_connection = status_line ∷ codes "Content-length: " ∷ to_string (length body) ∷ crlf ∷ []

  abbrev before_type : List Buffer
  before_type =
      status_line
      ∷ codes "Content-length: "
      ∷ to_string (length body)
      ∷ codes "\r\nConnection: "
      ∷ get_keep_alive_string is_keep_alive
      ∷ crlf
      ∷ []

  before_connection-IsPassed : All (IsPassed connection_param) before_connection
  before_connection-IsPassed = (
    passes-IsPassed b'C' _ status_line refl,
    (
      passes-IsPassed b'C' _ (codes "Content-length: ") refl,
      (digits-IsPassed _ (length body), (passes-IsPassed b'C' _ crlf refl, tt)),
    ),
  )

  before_type-IsPassed : All (IsPassed type_field) before_type
  before_type-IsPassed = (
    passes-IsPassed b'C' _ status_line refl,
    (
      passes-IsPassed b'C' _ (codes "Content-length: ") refl,
      (
        digits-IsPassed _ (length body),
        (
          passes-IsPassed b'C' _ (codes "\r\nConnection: ") refl,
          (
            other-IsPassed b'C' _ (get_keep_alive_string is_keep_alive) (
                All-imp (get_keep_alive_string is_keep_alive) (λ c p. p.0)
                  (keep_alive-Other is_keep_alive)),
            (passes-IsPassed b'C' _ crlf refl, tt),
          ),
        ),
      ),
    ),
  )

  connection_read :
      extract_field message connection_param ≡ ok (get_keep_alive_string is_keep_alive)
  unfolding create200
  connection_read =
      let (v, vs, e, h, k) = keep_alive-cons is_keep_alive in
      field_read message connection_param before_connection v vs after_connection
        before_connection-IsPassed (ground arith) h k (rw e (simp list_laws))
      ∙ ap ok (sym e)

  type_read :
      IsNotSpace t → All IsNotReturn (t ∷ ts) → extract_field message type_field ≡ ok (t ∷ ts)
  unfolding create200
  type_read h k =
      field_read message type_field before_type t ts after_type before_type-IsPassed (ground arith)
        h k (simp list_laws)

  -- What `ExtractField` reads from a response with a file, where the content type begins with no
  -- space and has no carriage return: the digits of the body's length, whether the connection is
  -- kept, and the content type.
  pub create200-fields :
      IsNotSpace t
      → All IsNotReturn (t ∷ ts)
      → ((digits : Buffer) × (extract_field message length_field ≡ ok digits)
          × (value_from 0 digits ≡ length body))
        × (extract_field message connection_param ≡ ok (get_keep_alive_string is_keep_alive))
        × (extract_field message type_field ≡ ok (t ∷ ts))
  create200-fields h k =
      let (v, vs, e) = to_string-cons (length body) in
      (
        (v ∷ vs, length_read v vs e, ap (value_from 0) (sym e) ∙ to_string-value (length body)),
        connection_read,
        type_read h k,
      )

  -- The part of the message before its blank line.
  abbrev head : List Buffer
  head =
      codes "HTTP/1.0 200 OK\r\nContent-length: "
      ∷ to_string (length body)
      ∷ codes "\r\nConnection: "
      ∷ get_keep_alive_string is_keep_alive
      ∷ codes "\r\nContent-Type: "
      ∷ (t ∷ ts)
      ∷ []

  head-IsPassed : All IsNotReturn (t ∷ ts) → All (IsPassed end_packet) head
  head-IsPassed h = (
    passes-IsPassed 13 _ (codes "HTTP/1.0 200 OK\r\nContent-length: ") refl,
    (
      other-IsPassed 13 _ (to_string (length body)) (
          All-imp (to_string (length body)) (λ c d. ground arith)
            (to_string-IsDigit (length body))),
      (
        passes-IsPassed 13 _ (codes "\r\nConnection: ") refl,
        (
          other-IsPassed 13 _ (get_keep_alive_string is_keep_alive) (
              All-imp (get_keep_alive_string is_keep_alive) (λ c p. p.1)
                (keep_alive-Other is_keep_alive)),
          (
            passes-IsPassed 13 _ (codes "\r\nContent-Type: ") refl,
            (other-IsPassed 13 _ (t ∷ ts) h, tt),
          ),
        ),
      ),
    ),
  )

  -- Where the content type has no carriage return, the body stands behind the message's first
  -- blank line, and a blank line follows it.
  pub create200-body :
      All IsNotReturn (t ∷ ts)
      → (before : Buffer) × (message ≡ before ++ (end_packet ++ (body ++ end_packet)))
        × (find message end_packet ≡ some (length before))
  unfolding create200
  create200-body h =
      let e : message ≡ concat head ++ (end_packet ++ (body ++ end_packet)) = simp list_laws in
      (
        concat head,
        e,
        ap (λ (b : Buffer). find b end_packet) e
            ∙ IsPassed-find end_packet (concat head) (body ++ end_packet)
                (concat-IsPassed end_packet head (head-IsPassed h)),
      )
