-- ===== src/Text/Passing.antt =====
-- Texts in which a search finds nothing, so that it goes on behind them.
use mathlib.Core.Option
use small_http_server.Base.{
  ℕ, suc, ◌+◌, ◌≡◌, refl, sym, ap, ◌∙◌, ◌≢◌, Bool, true, false, ◌&&◌, List, [], ◌∷◌, ◌++◌, Option,
  none, some, arith, ◌==◌, length, All, length-append, append_assoc, if◌then◌else◌,
}
use small_http_server.Text.{Buffer, starts_with, find}
use small_http_server.Text.Slices.{map_zero_add}
use small_http_server.Text.Search.{find-append_skip, find-append_self}

-- No occurrence of the needle begins in `pre`, whatever follows it.
abbrev pub IsPassed : Buffer → Buffer → Type 0
IsPassed needle pre =
    (s : Buffer) → find (pre ++ s) needle ≡ Option.map (λ i. length pre + i) (find s needle)

map_add_add :
    (m n : ℕ) (o : Option ℕ)
    → Option.map (λ i. m + i) (Option.map (λ i. n + i) o) ≡ Option.map (λ i. m + n + i) o
map_add_add m n none = refl
map_add_add m n (some i) = ap some (omega arith)

map-suc_add :
    (n : ℕ) (o : Option ℕ)
    → Option.map (λ i. suc i) (Option.map (λ i. n + i) o) ≡ Option.map (λ i. suc n + i) o
map-suc_add n none = refl
map-suc_add n (some i) = ap some (omega arith)

append-IsPassed :
    (needle p q : Buffer) → IsPassed needle p → IsPassed needle q → IsPassed needle (p ++ q)
append-IsPassed needle p q h k s =
    ap (λ (t : Buffer). find t needle) (append_assoc p q s)
    ∙ h (q ++ s)
    ∙ ap (Option.map (λ i. length p + i)) (k s)
    ∙ map_add_add (length p) (length q) (find s needle)
    ∙ ap (λ (n : ℕ). Option.map (λ i. n + i) (find s needle)) (sym (length-append p q))

-- Texts one after the other.
abbrev pub concat : List Buffer → Buffer
concat [] = []
concat (s ∷ ss) = s ++ concat ss

pub concat-IsPassed :
    (needle : Buffer) (ss : List Buffer) → All (IsPassed needle) ss → IsPassed needle (concat ss)
concat-IsPassed needle [] h = λ s. sym (map_zero_add (find s needle))
concat-IsPassed needle (p ∷ ss) (h, k) =
    append-IsPassed needle p (concat ss) h (concat-IsPassed needle ss k)

pub IsPassed-find :
    (needle pre s : Buffer)
    → IsPassed needle pre
    → find (pre ++ (needle ++ s)) needle ≡ some (length pre)
IsPassed-find needle pre s h =
    h (needle ++ s)
    ∙ ap (Option.map (λ i. length pre + i)) (find-append_self needle s)
    ∙ ap some (omega arith)

pub other-IsPassed :
    (c : ℕ) (needle pre : Buffer) → All (λ b. b ≢ c) pre → IsPassed (c ∷ needle) pre
other-IsPassed c needle pre h s = find-append_skip pre s c needle h

-- Whether the needle differs from a text before either ends.
abbrev rejects : Buffer → Buffer → Bool
rejects [] s = false
rejects (c ∷ needle) [] = false
rejects (c ∷ needle) (d ∷ s) = if c == d then rejects needle s else true

rejects-starts_with :
    (needle s t : Buffer) → rejects needle s ≡ true → starts_with needle (s ++ t) ≡ false
unfolding starts_with
rejects-starts_with [] s t h = cc
rejects-starts_with (c ∷ needle) [] t h = cc
rejects-starts_with (c ∷ needle) (d ∷ s) t h = ground (arith, rejects-starts_with needle s t)

-- Whether every end of a text is rejected.
abbrev pub passes : Buffer → Buffer → Bool
passes needle [] = true
passes needle (c ∷ s) = rejects needle (c ∷ s) && passes needle s

pub passes-IsPassed :
    (c : ℕ) (needle pre : Buffer) → passes (c ∷ needle) pre ≡ true → IsPassed (c ∷ needle) pre
unfolding find
passes-IsPassed c needle [] h s = sym (map_zero_add (find s (c ∷ needle)))
passes-IsPassed c needle (b ∷ pre) h s =
    let here : rejects (c ∷ needle) (b ∷ pre) ≡ true = ground arith in
    let later : passes (c ∷ needle) pre ≡ true = ground arith in
    rw (rejects-starts_with (c ∷ needle) (b ∷ pre) s here, passes-IsPassed c needle pre later s)
      (map-suc_add (length pre) (find s (c ∷ needle)))
