-- ===== src/Http/Message/Fields.antt =====
-- The fields of messages, and their values.
use small_http_server.Base.{
  ℕ, ◌+◌, ◌≡◌, refl, ap, ◌∙◌, ◌≢◌, Bool, true, false, List, [], ◌∷◌, ◌++◌, arith, All, All-imp,
  append_assoc, Bool-cases, inl, inr, ltb, ◌/◌, ◌%◌,
}
use small_http_server.Exceptions.{ok}
use small_http_server.Text.{Buffer, codes, crlf, find, to_string, digits}
use small_http_server.Text.Passing.{
  IsPassed, concat, concat-IsPassed, IsPassed-find, other-IsPassed,
}
use small_http_server.Text.Decimal.{to_string-IsDigit}
use small_http_server.Http.Message.{get_keep_alive_string}
use small_http_server.Http.Parser.{extract_field}
use small_http_server.Http.Parser.Header.{IsNotSpace}
use small_http_server.Http.Parser.Field.{IsNotReturn, extract_field-value}

pub digits-IsPassed : (needle : Buffer) (n : ℕ) → IsPassed (b'C' ∷ needle) (to_string n)
digits-IsPassed needle n =
    other-IsPassed b'C' needle (to_string n)
      (All-imp (to_string n) (λ c d. ground arith) (to_string-IsDigit n))

pub keep_alive-Other :
    (is_keep_alive : Bool) → All (λ c. (c ≢ b'C') × (c ≢ 13)) (get_keep_alive_string is_keep_alive)
unfolding get_keep_alive_string
keep_alive-Other true = ground arith
keep_alive-Other false = ground arith

snoc-cons : (s : Buffer) (c : ℕ) → (v : ℕ) × (vs : Buffer) × (s ++ c ∷ [] ≡ v ∷ vs)
snoc-cons [] c = (c, [], refl)
snoc-cons (d ∷ s) c = (d, s ++ c ∷ [], refl)

pub to_string-cons : (n : ℕ) → (v : ℕ) × (vs : Buffer) × (to_string n ≡ v ∷ vs)
unfolding to_string digits
to_string-cons n = elim (Bool-cases (ltb n 10)) [
  | inl one ↦ (48 + n, [], rw one)
  | inr more ↦ let (v, vs, e) = snoc-cons (digits n (n / 10)) (48 + n % 10) in (v, vs, rw more e)
]

pub keep_alive-cons :
    (is_keep_alive : Bool)
    → (v : ℕ) × (vs : Buffer) × (get_keep_alive_string is_keep_alive ≡ v ∷ vs)
      × IsNotSpace v
      × All IsNotReturn (v ∷ vs)
unfolding get_keep_alive_string
keep_alive-cons true = (b'k', codes "eep-alive", refl, ground arith, ground arith)
keep_alive-cons false = (b'c', codes "lose", refl, ground arith, ground arith)

-- A field of a message, in its line behind the texts `ss`.
pub field_read :
    (message field : Buffer) (ss : List Buffer) (v : ℕ) (vs post : Buffer)
    → All (IsPassed field) ss
    → All IsNotSpace (field ++ codes ":")
    → IsNotSpace v
    → All IsNotReturn (v ∷ vs)
    → message ≡ concat ss ++ ((field ++ codes ":") ++ ((b' ' ∷ []) ++ ((v ∷ vs) ++ (crlf ++ post))))
    → extract_field message field ≡ ok (v ∷ vs)
field_read message field ss v vs post passed label value line e =
    ap (λ (b : Buffer). extract_field b field) e
    ∙ extract_field-value (concat ss) (field ++ codes ":") [] v vs post label tt value line field (
        ap (λ (b : Buffer). find (concat ss ++ b) field)
          (append_assoc field (codes ":") ((b' ' ∷ []) ++ ((v ∷ vs) ++ (crlf ++ post))))
        ∙ IsPassed-find field (concat ss) _ (concat-IsPassed field ss passed))
