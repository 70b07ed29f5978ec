-- ===== src/Text.antt =====
-- std::string, the type `Buffer` of Buffer.h, as a list of bytes. A position is an `Option`: `none`
-- is std::string::npos. Buffers are shorter than npos.
pub mod Search
pub mod Decimal
pub mod Slices
pub mod Passing
use Prim.Native.Char.{code}
use mathlib.Core.Option
use small_http_server.Base.{
  ℕ, zero, suc, ◌+◌, ◌/◌, ◌%◌, String, Bool, true, false, not, ◌&&◌, ◌||◌, List, [], ◌∷◌, ◌++◌,
  Option, none, some, ltb, ◌==◌, if◌then◌else◌, length, take, drop,
}
use small_http_server.Exceptions.{Result, ok, throw, out_of_range}

abbrev pub Buffer : Type 0
Buffer = List ℕ

-- The bytes of a literal (all literals of the program are ASCII).
abbrev pub codes : String → Buffer
codes String.[] = []
codes (String.◌∷◌ c s) = code c ∷ codes s

abbrev pub crlf : Buffer
crlf = 13 ∷ 10 ∷ []

unfoldable pub str_eq : Buffer → Buffer → Bool
str_eq [] [] = true
str_eq [] (d ∷ t) = false
str_eq (c ∷ s) [] = false
str_eq (c ∷ s) (d ∷ t) = c == d && str_eq s t

unfoldable pub starts_with : Buffer → Buffer → Bool
starts_with [] s = true
starts_with (c ∷ needle) [] = false
starts_with (c ∷ needle) (d ∷ s) = c == d && starts_with needle s

-- Where `needle` occurs first.
unfoldable pub find : Buffer → Buffer → Option ℕ
find [] needle = if starts_with needle [] then some 0 else none
find (c ∷ s) needle =
    let later = Option.map suc (find s needle) in
    if starts_with needle (c ∷ s) then some 0 else later

unfoldable pub contains : Buffer → ℕ → Bool
contains [] c = false
contains (d ∷ set) c = c == d || contains set c

-- Where the first byte stands that passes the test.
unfoldable pub find_if : (ℕ → Bool) → Buffer → Option ℕ
find_if p [] = none
find_if p (c ∷ s) = let later = Option.map suc (find_if p s) in if p c then some 0 else later

-- A search from `start`, which fails past the end.
abbrev pub search_from : (Buffer → Option ℕ) → Buffer → ℕ → Option ℕ
search_from f s start =
    if ltb (length s) start then none else Option.map (λ i. start + i) (f (drop start s))

-- s.find(needle, start)
unfoldable pub find_from : Buffer → Buffer → ℕ → Option ℕ
find_from s needle start = search_from (λ t. find t needle) s start

-- s.find_first_of(set, start)
unfoldable pub find_first_of : Buffer → Buffer → ℕ → Option ℕ
find_first_of s set start = search_from (find_if (contains set)) s start

-- s.find_first_not_of(set, start)
unfoldable pub find_first_not_of : Buffer → Buffer → ℕ → Option ℕ
find_first_not_of s set start = search_from (find_if (λ c. not (contains set c))) s start

-- s.rfind(c)
unfoldable pub rfind : Buffer → ℕ → Option ℕ
rfind [] c = none
rfind (d ∷ s) c = elim (rfind s c) [
  | some i ↦ some (suc i)
  | none ↦ if d == c then some 0 else none
]

-- s.substr(start, count) and s.substr(start, npos)
unfoldable pub substr : Buffer → ℕ → ℕ → Result Buffer
substr s start count =
    if ltb (length s) start then throw out_of_range else ok (take count (drop start s))

unfoldable pub substr_to_end : Buffer → ℕ → Result Buffer
substr_to_end s start = if ltb (length s) start then throw out_of_range else ok (drop start s)

-- std::to_string of a size, on fuel. A number has fewer digits than its successor has units, so
-- `suc n` rounds are enough for `n`.
unfoldable pub digits : ℕ → ℕ → Buffer
digits zero n = []
digits (suc fuel) n =
    let more = digits fuel (n / 10) in
    if ltb n 10 then (48 + n) ∷ [] else more ++ (48 + n % 10) ∷ []

unfoldable pub to_string : ℕ → Buffer
to_string n = digits (suc n) n
