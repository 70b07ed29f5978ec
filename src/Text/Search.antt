-- ===== src/Text/Search.antt =====
-- What the searches of std::string find.
use mathlib.Core.Option
use small_http_server.Base.{
  ℕ, zero, suc, ◌+◌, ◌≤◌, ◌<◌, ◌≡◌, refl, ap, ◌∙◌, ◌≢◌, ◌↔◌, true, false, [], ◌∷◌, ◌++◌, none, some,
  arith, length, take, drop, All, drop_nil, suc-add,
}
use small_http_server.Text.{Buffer, str_eq, starts_with, find}

pub str_eq_iff : (s t : Buffer) → (str_eq s t ≡ true) ↔ (s ≡ t)
unfolding str_eq
str_eq_iff [] [] = ground arith
str_eq_iff [] (d ∷ t) = ground arith
str_eq_iff (c ∷ s) [] = ground arith
str_eq_iff (c ∷ s) (d ∷ t) = ground (arith, str_eq_iff s t)

pub starts_with-append : (needle s : Buffer) → starts_with needle (needle ++ s) ≡ true
unfolding starts_with
starts_with-append [] s = refl
starts_with-append (c ∷ needle) s = ground (arith, starts_with-append needle s)

pub starts_with_sound :
    (needle s : Buffer) → starts_with needle s ≡ true → s ≡ needle ++ drop (length needle) s
unfolding starts_with
starts_with_sound [] s h = refl
starts_with_sound (c ∷ needle) [] h = cc
starts_with_sound (c ∷ needle) (d ∷ s) h = ground (arith, starts_with_sound needle s)

pub starts_with_bound : (needle s : Buffer) → starts_with needle s ≡ true → length needle ≤ length s
unfolding starts_with
starts_with_bound [] s h = omega arith
starts_with_bound (c ∷ needle) [] h = cc
starts_with_bound (c ∷ needle) (d ∷ s) h = ground (arith, starts_with_bound needle s)

-- A search passes over bytes that do not begin the needle.
pub find-append_skip :
    (pre s : Buffer) (c : ℕ) (needle : Buffer)
    → All (λ b. b ≢ c) pre
    → find (pre ++ s) (c ∷ needle) ≡ Option.map (λ i. length pre + i) (find s (c ∷ needle))
unfolding find starts_with
find-append_skip [] s c needle h = ground arith
find-append_skip (b ∷ pre) s c needle h = ground (arith, find-append_skip pre s c needle h.1)

pub find-append_self : (needle s : Buffer) → find (needle ++ s) needle ≡ some 0
unfolding find starts_with
find-append_self [] [] = refl
find-append_self [] (c ∷ s) = refl
find-append_self (c ∷ needle) s = ground (arith, starts_with-append needle s)

pub find-skip_self :
    (pre : Buffer) (c : ℕ) (needle s : Buffer)
    → All (λ b. b ≢ c) pre
    → find (pre ++ ((c ∷ needle) ++ s)) (c ∷ needle) ≡ some (length pre)
find-skip_self pre c needle s h =
    find-append_skip pre ((c ∷ needle) ++ s) c needle h
    ∙ ap (Option.map (λ i. length pre + i)) (find-append_self (c ∷ needle) s)
    ∙ ap some (omega arith)

-- A hit splits the text round the needle.
pub find_sound :
    (s needle : Buffer) (i : ℕ)
    → find s needle ≡ some i
    → s ≡ take i s ++ (needle ++ drop (i + length needle) s)
unfolding find starts_with
find_sound [] [] i h = ground arith
find_sound [] (c ∷ needle) i h = cc
find_sound (c ∷ s) needle zero h =
    starts_with_sound needle (c ∷ s) (ground arith)
    ∙ ap (λ (k : ℕ). needle ++ drop k (c ∷ s)) (omega arith)
find_sound (c ∷ s) needle (suc i) h =
    rw (suc-add i (length needle)) (ap (◌∷◌ c) (find_sound s needle i (ground arith)))

-- A hit lies inside the text.
pub find_bound : (s needle : Buffer) (i : ℕ) → find s needle ≡ some i → i + length needle ≤ length s
unfolding find starts_with
find_bound [] [] i h = ground arith
find_bound [] (c ∷ needle) i h = cc
find_bound (c ∷ s) needle zero h = omega (arith, starts_with_bound needle (c ∷ s) (ground arith))
find_bound (c ∷ s) needle (suc i) h = omega (arith, find_bound s needle i (ground arith))

-- Nothing before the hit is one, and a failed search means that there is no occurrence.
pub find_first :
    (s needle : Buffer) (i : ℕ)
    → find s needle ≡ some i
    → (j : ℕ) → j < i
    → starts_with needle (drop j s) ≡ false
unfolding find starts_with
find_first [] [] i h j lt = ground arith
find_first [] (c ∷ needle) i h j lt = cc
find_first (c ∷ s) needle i h zero lt = ground arith
find_first (c ∷ s) needle zero h (suc j) lt = absurd (omega arith)
find_first (c ∷ s) needle (suc i) h (suc j) lt =
    find_first s needle i (ground arith) j (omega arith)

pub find-none :
    (s needle : Buffer) → find s needle ≡ none → (j : ℕ) → starts_with needle (drop j s) ≡ false
unfolding find starts_with
find-none [] [] h j = cc
find-none [] (c ∷ needle) h j = rw (drop_nil j)
find-none (c ∷ s) needle h zero = ground arith
find-none (c ∷ s) needle h (suc j) = find-none s needle (ground arith) j

-- A hit is an occurrence.
pub find-starts_with :
    (s needle : Buffer) (i : ℕ) → find s needle ≡ some i → starts_with needle (drop i s) ≡ true
unfolding find starts_with
find-starts_with [] [] zero h = refl
find-starts_with [] [] (suc i) h = refl
find-starts_with [] (c ∷ needle) i h = cc
find-starts_with (c ∷ s) needle zero h = ground arith
find-starts_with (c ∷ s) needle (suc i) h = find-starts_with s needle i (ground arith)
