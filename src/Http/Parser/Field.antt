-- ===== src/Http/Parser/Field.antt =====
-- What `ExtractField` reads.
use mathlib.Core.Option
use small_http_server.Base.{
  list_laws, ℕ, ◌+◌, ◌≡◌, refl, sym, ap, ◌∙◌, ◌≢◌, true, false, not, [], ◌∷◌, ◌++◌, none, some,
  arith, ◌==◌, length, All, All-imp, length-append, append_assoc, append-nil,
}
use small_http_server.Exceptions.{Exception, ok, throw, out_of_range}
use small_http_server.Text.{
  Buffer, codes, crlf, find, find_from, find_if, find_first_not_of, contains, substr,
}
use small_http_server.Text.Search.{find-skip_self}
use small_http_server.Text.Slices.{
  find_if-append_first, find_if-none, find-singleton, find_from_zero, search_from_at, substr_at,
}
use small_http_server.Http.Parser.{extract_field}
use small_http_server.Http.Parser.Header.{IsNotSpace}

abbrev pub IsNotReturn : ℕ → Type 0
IsNotReturn c = c ≢ 13

-- The field's line: what leads up to the first space, the blanks, and the value `v ∷ vs`.
module _ (pre label blanks : Buffer) (v : ℕ) (vs post : Buffer) (label_ok : All IsNotSpace label)
    (blanks_ok : All (λ c. c ≡ b' ') blanks) (value_ok : IsNotSpace v)
    (line_ok : All IsNotReturn (v ∷ vs)) where
  abbrev field_line : Buffer
  field_line = pre ++ (label ++ ((b' ' ∷ blanks) ++ ((v ∷ vs) ++ (crlf ++ post))))

  abbrev value_start : ℕ
  value_start = length pre + length label + length (b' ' ∷ blanks)

  find_blank : find_from field_line (codes " ") (length pre) ≡ some (length pre + length label)
  unfolding find_from
  find_blank =
      search_from_at (λ t. find t (codes " ")) field_line (length pre) pre _ refl refl
      ∙ ap (Option.map (λ i. length pre + i)) (
          find-singleton (label ++ ((b' ' ∷ blanks) ++ ((v ∷ vs) ++ (crlf ++ post)))) b' '
          ∙ find_if-append_first (λ d. b' ' == d) label b' ' _
              (All-imp label (λ c p. ground arith) label_ok) refl)

  not_blank : (c : ℕ) → c ≡ b' ' → not (contains (codes " ") c) ≡ false
  unfolding contains
  not_blank c e = ground arith

  first_not_blank : not (contains (codes " ") v) ≡ true
  unfolding contains
  first_not_blank = ground arith

  find_value :
      find_first_not_of field_line (codes " ") (length pre + length label) ≡ some value_start
  unfolding find_first_not_of
  find_value =
      search_from_at (find_if (λ c. not (contains (codes " ") c))) field_line
        (length pre + length label) (pre ++ label) ((b' ' ∷ blanks) ++ ((v ∷ vs) ++ (crlf ++ post)))
        (sym (append_assoc pre label _)) (sym (length-append pre label))
      ∙ ap (Option.map (λ i. length pre + length label + i)) (
          find_if-append_first (λ c. not (contains (codes " ") c)) (b' ' ∷ blanks) v
            (vs ++ (crlf ++ post)) (not_blank b' ' refl, All-imp blanks not_blank blanks_ok)
            first_not_blank)

  before_value : field_line ≡ (pre ++ (label ++ (b' ' ∷ blanks))) ++ ((v ∷ vs) ++ (crlf ++ post))
  before_value = simp list_laws

  value_start-length : value_start ≡ length (pre ++ (label ++ (b' ' ∷ blanks)))
  value_start-length =
      omega
        (arith, length-append pre (label ++ (b' ' ∷ blanks)), length-append label (b' ' ∷ blanks))

  find_line_end : find_from field_line crlf value_start ≡ some (value_start + length (v ∷ vs))
  unfolding find_from
  find_line_end =
      search_from_at (λ t. find t crlf) field_line value_start (pre ++ (label ++ (b' ' ∷ blanks)))
        ((v ∷ vs) ++ (crlf ++ post)) before_value value_start-length
      ∙ ap (Option.map (λ i. value_start + i)) (find-skip_self (v ∷ vs) 13 (10 ∷ []) post line_ok)

  -- Where the field's name is followed by a space and a value in one line, `ExtractField` gives
  -- the rest of that line after the blanks.
  pub extract_field-value :
      (field : Buffer)
      → find field_line field ≡ some (length pre)
      → extract_field field_line field ≡ ok (v ∷ vs)
  unfolding extract_field Option.bind
  extract_field-value field e =
      rw (extract_field, find_from_zero field_line field ∙ e, find_blank, find_value, find_line_end)
        (substr_at field_line value_start _ (pre ++ (label ++ (b' ' ∷ blanks))) (v ∷ vs)
          (crlf ++ post) before_value value_start-length (omega arith))

-- A field at the end of a buffer, followed by blanks at most.
module _ (pre label : Buffer) (label_ok : All IsNotSpace label) where
  label_no_blank : All (λ d. (b' ' == d) ≡ false) label
  label_no_blank = All-imp label (λ c p. ground arith) label_ok

  search_blank :
      (s : Buffer)
      → find_from (pre ++ s) (codes " ") (length pre)
        ≡ Option.map (λ i. length pre + i) (find_if (λ d. b' ' == d) s)
  unfolding find_from
  search_blank s =
      search_from_at (λ t. find t (codes " ")) (pre ++ s) (length pre) pre s refl refl
      ∙ ap (Option.map (λ i. length pre + i)) (find-singleton s b' ')

  no_value :
      (blanks : Buffer)
      → All (λ c. c ≡ b' ') blanks
      → Option.bind
          (find_from (pre ++ (label ++ blanks)) (codes " ") (length pre))
          (λ value. find_first_not_of (pre ++ (label ++ blanks)) (codes " ") value)
        ≡ none
  unfolding Option.bind find_first_not_of contains
  no_value [] h = rw (
    search_blank (label ++ []),
    append-nil label,
    find_if-none (λ d. b' ' == d) label label_no_blank,
  )
  no_value (b ∷ blanks) (e, h) = rw (
    search_blank (label ++ b ∷ blanks),
    find_if-append_first (λ d. b' ' == d) label b blanks label_no_blank (ground arith),
    search_from_at (find_if (λ c. not (contains (codes " ") c))) (pre ++ (label ++ b ∷ blanks))
        (length pre + length label) (pre ++ label) (b ∷ blanks)
        (sym (append_assoc pre label (b ∷ blanks))) (sym (length-append pre label)),
    find_if-none (λ c. not (contains (codes " ") c)) (b ∷ blanks)
        (All-imp (b ∷ blanks) (λ c p. ground arith) (e, h)),
  )

  -- A field with nothing but blanks behind its name, up to the end of the buffer, is an error:
  -- `ExtractField` throws std::out_of_range.
  pub extract_field-no_value :
      (blanks field : Buffer)
      → All (λ c. c ≡ b' ') blanks
      → find (pre ++ (label ++ blanks)) field ≡ some (length pre)
      → extract_field (pre ++ (label ++ blanks)) field ≡ throw out_of_range
  unfolding extract_field
  extract_field-no_value blanks field h e =
      rw (extract_field, find_from_zero (pre ++ (label ++ blanks)) field ∙ e, no_value blanks h)

-- Whatever `ExtractField` throws is std::out_of_range.
pub extract_field-throw :
    (buffer field : Buffer) (e : Exception)
    → extract_field buffer field ≡ throw e
    → e ≡ out_of_range
unfolding extract_field substr
extract_field-throw buffer field e h = ground arith
