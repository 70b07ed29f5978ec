-- ===== src/Http/Parser/NoValue.antt =====
-- Where `ExtractField` throws.
use mathlib.Core.Option
use small_http_server.Base.{
  subst, ◌-◌, ◌↔◌, take, drop, length-take, take-append-drop, Option-cases, ℕ, ◌+◌, ◌≤◌, ltb, inl,
  inr, ◌≡◌, refl, sym, ap, ◌∙◌, ◌≢◌, true, false, not, [], ◌∷◌, ◌++◌, none, some, arith, ◌==◌,
  length, All, All-imp, length-append, append_assoc, append-nil,
}
use small_http_server.Exceptions.{Exception, ok, throw, out_of_range}
use small_http_server.Text.{
  Buffer, codes, crlf, find, find_from, find_if, find_first_not_of, contains, substr,
}
use small_http_server.Text.Search.{find_bound}
use small_http_server.Text.Slices.{
  find_if-append_first, find_if-FirstIf, find-singleton, find_from_zero, search_from_at,
}
use small_http_server.Http.Parser.{field_value, extract_field}
use small_http_server.Http.Parser.Header.{IsNotSpace}
use small_http_server.Http.Parser.Field.{extract_field-no_value}

-- From the first occurrence of the field's name on there is one word, and behind it nothing but
-- blanks, up to the end of the buffer.
pub record NoValue (buffer field : Buffer) : Type 0 where
  pub before : Buffer
  pub word : Buffer
  pub blanks : Buffer
  pub cut : buffer ≡ before ++ (word ++ blanks)
  pub first : find buffer field ≡ some (length before)
  pub one_word : All IsNotSpace word
  pub only_blanks : All (λ c. c ≡ b' ') blanks

extract_field_of_NoValue :
    (buffer field : Buffer) → NoValue buffer field → extract_field buffer field ≡ throw out_of_range
extract_field_of_NoValue buffer field n =
    ap (λ (b : Buffer). extract_field b field) n.cut
    ∙ extract_field-no_value n.before n.word n.one_word n.blanks field n.only_blanks
        (ap (λ (b : Buffer). find b field) (sym n.cut) ∙ n.first)

-- At a position in the buffer `substr` does not throw.
field_value-returns :
    (buffer : Buffer) (n : ℕ)
    → n ≤ length buffer
    → (value : Buffer) × (field_value buffer (some n) ≡ ok value)
unfolding field_value substr
field_value-returns buffer n h =
    let inside : ltb (length buffer) n ≡ false = ground arith in
    let end : ℕ = Option.get_or (find_from buffer crlf n) (length buffer) in
    (take (end - n) (drop n buffer), rw inside)

-- A byte behind the blanks is found.
module _ (before word : Buffer) (b : ℕ) (post blanks : Buffer) (v : ℕ) (rest field : Buffer)
    (word_ok : All (λ d. (b' ' == d) ≡ false) word) (b_ok : (b' ' == b) ≡ true)
    (is_post : ◌≡◌ {A = Buffer} (b ∷ post) (blanks ++ v ∷ rest))
    (blanks_ok : All (λ c. not (contains (codes " ") c) ≡ false) blanks)
    (v_ok : not (contains (codes " ") v) ≡ true) where
  abbrev text : Buffer
  text = before ++ (word ++ b ∷ post)

  abbrev byte_position : ℕ
  byte_position = length before + length word + length blanks

  blank_at : find_from text (codes " ") (length before) ≡ some (length before + length word)
  unfolding find_from
  blank_at =
      search_from_at (λ t. find t (codes " ")) text (length before) before _ refl refl
      ∙ ap (Option.map (λ i. length before + i)) (
          find-singleton (word ++ b ∷ post) b' '
          ∙ find_if-append_first (λ d. b' ' == d) word b post word_ok b_ok)

  byte_at : find_first_not_of text (codes " ") (length before + length word) ≡ some byte_position
  unfolding find_first_not_of
  byte_at =
      search_from_at (find_if (λ c. not (contains (codes " ") c))) text
        (length before + length word) (before ++ word) (b ∷ post)
        (sym (append_assoc before word (b ∷ post))) (sym (length-append before word))
      ∙ ap (Option.map (λ i. length before + length word + i)) (
          ap (find_if (λ c. not (contains (codes " ") c))) is_post
          ∙ find_if-append_first (λ c. not (contains (codes " ") c)) blanks v rest blanks_ok v_ok)

  byte_inside : byte_position ≤ length text
  byte_inside =
      let size : length (b ∷ post) ≡ length (blanks ++ v ∷ rest) =
        ap (λ (s : Buffer). length s) is_post in
      omega (
        arith,
        length-append before (word ++ b ∷ post),
        length-append word (b ∷ post),
        length-append blanks (v ∷ rest),
        size,
      )

  extract_field-byte :
      find text field ≡ some (length before)
      → extract_field text field ≡ field_value text (some byte_position)
  unfolding extract_field Option.bind
  extract_field-byte e = rw (extract_field, find_from_zero text field ∙ e, blank_at, byte_at)

  extract_field-not_thrown :
      (e : Exception) → find text field ≡ some (length before) → extract_field text field ≢ throw e
  extract_field-not_thrown e first thrown =
      let (value, run) = field_value-returns text byte_position byte_inside in
      cc (thrown, extract_field-byte first, run)

blank_of : (c : ℕ) → not (contains (codes " ") c) ≡ false → c ≡ b' '
unfolding contains
blank_of c h = ground arith

-- What stands from the first occurrence of the name on.
NoValue-of_word :
    (before s field : Buffer) (e : Exception)
    → find (before ++ s) field ≡ some (length before)
    → extract_field (before ++ s) field ≡ throw e
    → NoValue (before ++ s) field
NoValue-of_word before s field e first thrown = elim (find_if-FirstIf (λ d. b' ' == d) s) [
  | inl (_, word_ok) ↦ record {
    before = before;
    word = s;
    blanks = [];
    cut = ap (λ (w : Buffer). before ++ w) (sym (append-nil s));
    first = first;
    one_word = All-imp s (λ c p. ground arith) word_ok;
    only_blanks = tt;
  }
  | inr (word, b, post, is_s, word_ok, hit, _) ↦
      elim (find_if-FirstIf (λ c. not (contains (codes " ") c)) (b ∷ post)) [
        | inl (_, all_blank) ↦ record {
          before = before;
          word = word;
          blanks = b ∷ post;
          cut = ap (λ (w : Buffer). before ++ w) is_s;
          first = first;
          one_word = All-imp word (λ c p. ground arith) word_ok;
          only_blanks = All-imp (b ∷ post) blank_of all_blank;
        }
        | inr (blanks, v, rest, is_post, blanks_ok, v_ok, _) ↦
            let same : before ++ s ≡ before ++ (word ++ b ∷ post) =
              ap (λ (w : Buffer). before ++ w) is_s in
            absurd (
              extract_field-not_thrown before word b post blanks v rest field word_ok hit is_post
                blanks_ok v_ok e (ap (λ (w : Buffer). find w field) (sym same) ∙ first)
                (ap (λ (w : Buffer). extract_field w field) (sym same) ∙ thrown))
      ]
]

take-length : (s t : Buffer) (i : ℕ) → i + length t ≤ length s → length (take i s) ≡ i
take-length s t i h = omega (arith, length-take i s)

extract_field_missing :
    (buffer field : Buffer) → find buffer field ≡ none → extract_field buffer field ≡ ok []
unfolding extract_field
extract_field_missing buffer field e = rw (extract_field, find_from_zero buffer field ∙ e)

NoValue-of_throw :
    (buffer field : Buffer) (e : Exception)
    → extract_field buffer field ≡ throw e
    → NoValue buffer field
NoValue-of_throw buffer field e h = elim (Option-cases (find buffer field)) [
  | inl missing ↦ cc (extract_field_missing buffer field missing, h)
  | inr (i, found) ↦
      let whole : take i buffer ++ drop i buffer ≡ buffer = take-append-drop i buffer in
      let size : length (take i buffer) ≡ i =
        take-length buffer field i (find_bound buffer field i found) in
      subst (λ (b : Buffer). NoValue b field) whole
        (NoValue-of_word (take i buffer) (drop i buffer) field e
          (ap (λ (b : Buffer). find b field) whole ∙ found ∙ ap some (sym size))
          (ap (λ (b : Buffer). extract_field b field) whole ∙ h))
]

-- `ExtractField` throws exactly where the first occurrence of the name is in the last word of the
-- buffer.
pub extract_field_throw_iff :
    (buffer field : Buffer)
    → (extract_field buffer field ≡ throw out_of_range) ↔ NoValue buffer field
extract_field_throw_iff buffer field =
    (NoValue-of_throw buffer field out_of_range, extract_field_of_NoValue buffer field)
