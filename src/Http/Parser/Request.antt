-- ===== src/Http/Parser/Request.antt =====
-- Whole requests: what `Parse` reads from a well-formed one, and the reasons for which it throws.
use small_http_server.Base.{
  ℕ, ◌+◌, ◌≡◌, refl, sym, ap, subst, ◌∙◌, ◌↔◌, ◌⊎◌, inl, inr, false, [], ◌∷◌, ◌++◌, map, none, some,
  arith, Option-cases, length, take, drop, All, length-take,
}
use small_http_server.Exceptions.{
  Exception, Result, ok, throw, out_of_range, parse_exception, ◌>>=◌,
}
use small_http_server.Text.{Buffer, codes, crlf, find, str_eq, starts_with}
use small_http_server.Text.Search.{
  find-skip_self, find-starts_with, find-none, find_sound, find_bound,
}
use small_http_server.Text.Slices.{find_from_zero, substr-append}
use small_http_server.Http.Packet.{
  Packet, command_param, path_param, connection_param, add_param, insert, at, get_path,
  is_get_method, is_keep_alive, to_lower,
}
use small_http_server.Http.Parser.{extract_field, parse_header, parse}
use small_http_server.Http.Parser.Header.{
  IsNotSpace, IsPathByte, HeaderLine, request_line, parse_header_iff,
}
use small_http_server.Http.Parser.Field.{IsNotReturn, extract_field-throw}
use small_http_server.Http.Parser.NoValue.{NoValue, extract_field_throw_iff}

-- A buffer that is cut at its first line end.
parse-append_crlf :
    (header tail : Buffer)
    → find (header ++ (crlf ++ tail)) crlf ≡ some (length header)
    → parse (header ++ (crlf ++ tail)) ≡ (
        parse_header header >>= λ packet.
        extract_field (header ++ (crlf ++ tail)) connection_param >>= λ value.
        ok (add_param packet connection_param value))
unfolding parse
parse-append_crlf header tail e =
    rw (find_from_zero (header ++ (crlf ++ tail)) crlf ∙ e, substr-append [] header (crlf ++ tail))

module _ (command path : Buffer) (sep : ℕ) (rest tail value : Buffer) where
  abbrev pub request_header : Buffer
  request_header = command ++ b' ' ∷ (path ++ sep ∷ rest)

  abbrev pub request : Buffer
  request = request_header ++ (crlf ++ tail)

  abbrev pub request_packet : Packet
  request_packet = record {
    params = (command_param, command) ∷ (path_param, path) ∷ (connection_param, value) ∷ [];
  }

  -- A request whose first line is `command ' ' path (' ' | '?') rest`, with no space in the
  -- command, neither of the two in the path and no carriage return in the line, is read whole: the
  -- packet has the command, the path, and what `ExtractField` gives for Connection.
  pub parse-request :
      All IsNotSpace command
      → All IsPathByte path
      → (sep ≡ b' ') ⊎ (sep ≡ b'?')
      → All IsNotReturn request_header
      → extract_field request connection_param ≡ ok value
      → parse request ≡ ok request_packet
  unfolding add_param insert str_eq
  parse-request h k s n e =
      parse-append_crlf request_header tail (find-skip_self request_header 13 (10 ∷ []) tail n)
      ∙ rw
          ((parse_header_iff request_header _).1 (request_line command path sep rest refl h k s), e)

  -- What the getters of the packet then answer.
  pub request_packet-getters :
      (get_path request_packet ≡ ok path)
      × (is_get_method request_packet ≡ ok (str_eq (codes "GET") command))
      × (is_keep_alive request_packet ≡ ok (str_eq (codes "keep-alive") (map to_lower value)))
  unfolding get_path is_get_method is_keep_alive at str_eq
  request_packet-getters = (refl, refl, refl)

-- A buffer cut at its first line end.
pub record FirstLine (buffer : Buffer) : Type 0 where
  pub header : Buffer
  pub tail : Buffer
  pub cut : buffer ≡ header ++ (crlf ++ tail)
  pub first : find (header ++ (crlf ++ tail)) crlf ≡ some (length header)

-- Why a buffer is refused, with the exception that tells so.
pub data Refused (buffer : Buffer) : Exception → Type 0 where
  no_line_end :
      ((j : ℕ) → starts_with crlf (drop j buffer) ≡ false)
      → Refused buffer (parse_exception "\r\n wasn't found")
  bad_header :
      (line : FirstLine buffer) (reason : Exception)
      → HeaderLine line.header (throw reason)
      → Refused buffer reason
  bad_field :
      (line : FirstLine buffer) (packet : Packet)
      → HeaderLine line.header (ok packet)
      → NoValue buffer connection_param
      → Refused buffer out_of_range

FirstLine-of_find : (buffer : Buffer) (i : ℕ) → find buffer crlf ≡ some i → FirstLine buffer
FirstLine-of_find buffer i e =
    let split = find_sound buffer crlf i e in
    let size : length (take i buffer) ≡ i =
      omega (arith, length-take i buffer, find_bound buffer crlf i e) in
    record {
      header = take i buffer;
      tail = drop (i + 2) buffer;
      cut = split;
      first = ap (λ (s : Buffer). find s crlf) (sym split) ∙ e ∙ ap some (sym size);
    }

-- `Parse` of a buffer with a line end.
parse-FirstLine :
    (buffer : Buffer) (line : FirstLine buffer)
    → parse buffer ≡ (
        parse_header line.header >>= λ packet. extract_field buffer connection_param >>= λ value.
        ok (add_param packet connection_param value))
parse-FirstLine buffer line =
    ap parse line.cut
    ∙ parse-append_crlf line.header line.tail line.first
    ∙ ap
        (λ (b : Buffer). parse_header line.header >>= λ packet.
          extract_field b connection_param >>= λ value.
          ok (add_param packet connection_param value))
        (sym line.cut)

Refused-of_field :
    (buffer : Buffer) (e : Exception) (line : FirstLine buffer) (packet : Packet)
    (field : Result Buffer)
    → HeaderLine line.header (ok packet)
    → extract_field buffer connection_param ≡ field
    → (field >>= λ value. ok (add_param packet connection_param value)) ≡ throw e
    → Refused buffer e
Refused-of_field buffer e line packet (ok value) h f t = cc
Refused-of_field buffer e line packet (throw x) h f t =
    let range = extract_field-throw buffer connection_param x f in
    subst (Refused buffer) (sym range ∙ ground arith) (
      bad_field line packet h
        ((extract_field_throw_iff buffer connection_param).0 (f ∙ ap throw range)))

Refused-of_header :
    (buffer : Buffer) (e : Exception) (line : FirstLine buffer) (r : Result Packet)
    → HeaderLine line.header r
    → (r >>= λ packet. extract_field buffer connection_param >>= λ value.
        ok (add_param packet connection_param value))
      ≡ throw e
    → Refused buffer e
Refused-of_header buffer e line (ok packet) h t = Refused-of_field buffer e line packet _ h refl t
Refused-of_header buffer e line (throw x) h t =
    bad_header line e (subst (λ (y : Exception). HeaderLine line.header (throw y)) (ground arith) h)

parse-no_line_end :
    (buffer : Buffer)
    → find buffer crlf ≡ none
    → parse buffer ≡ throw (parse_exception "\r\n wasn't found")
unfolding parse
parse-no_line_end buffer e = rw (find_from_zero buffer crlf ∙ e)

Refused-of_parse : (buffer : Buffer) (e : Exception) → parse buffer ≡ throw e → Refused buffer e
Refused-of_parse buffer e h = elim (Option-cases (find buffer crlf)) [
  | inl missing ↦
      subst (Refused buffer) (ground (arith, parse-no_line_end buffer missing))
        (no_line_end (find-none buffer crlf missing))
  | inr (i, found) ↦
      let line = FirstLine-of_find buffer i found in
      Refused-of_header buffer e line (parse_header line.header)
        ((parse_header_iff line.header _).0 refl) (sym (parse-FirstLine buffer line) ∙ h)
]

parse_of_Refused : (buffer : Buffer) (e : Exception) → Refused buffer e → parse buffer ≡ throw e
parse_of_Refused buffer e (no_line_end none_there) = elim (Option-cases (find buffer crlf)) [
  | inl missing ↦ parse-no_line_end buffer missing
  | inr (i, found) ↦ cc (none_there i, find-starts_with buffer crlf i found)
]
parse_of_Refused buffer e (bad_header line reason h) =
    parse-FirstLine buffer line ∙ rw ((parse_header_iff line.header _).1 h)
parse_of_Refused buffer e (bad_field line packet h n) =
    parse-FirstLine buffer line
    ∙ rw (
      (parse_header_iff line.header _).1 h,
      (extract_field_throw_iff buffer connection_param).1 n,
    )

-- `Parse` throws exactly where there is no line end, where the first line is no request line, or
-- where, behind a good first line, the first "Connection" of the whole buffer stands in its last
-- word, with nothing but blanks behind that; the exception tells which of the three.
pub parse_throw_iff :
    (buffer : Buffer) (e : Exception) → (parse buffer ≡ throw e) ↔ Refused buffer e
parse_throw_iff buffer e = (Refused-of_parse buffer e, parse_of_Refused buffer e)
