-- ===== src/Text/Slices.antt =====
-- Searches from a position, and the piece that std::string::substr cuts out, on texts that are
-- written as concatenations.
use mathlib.Core.Option
use small_http_server.Base.{
  ℕ, suc, ◌+◌, ◌≡◌, refl, sym, ap, subst, ◌∙◌, ◌⊎◌, inl, inr, Bool, true, false, [], ◌∷◌, ◌++◌,
  Option, none, some, arith, ltb, ◌==◌, Bool-cases, length, All, length-append, drop-append_length,
  take-append_length, append-nil,
}
use small_http_server.Exceptions.{ok}
use small_http_server.Text.{Buffer, find, find_if, search_from, find_from, substr, starts_with}

-- The first byte that passes a test, as a split of the text.
abbrev pub FirstIf : (ℕ → Bool) → Buffer → Option ℕ → Type 0
FirstIf p s r =
    ((r ≡ none) × All (λ c. p c ≡ false) s)
    ⊎ ((pre : Buffer) × (x : ℕ) × (post : Buffer) × (s ≡ pre ++ x ∷ post)
        × All (λ c. p c ≡ false) pre
        × (p x ≡ true)
        × (r ≡ some (length pre)))

module _ (p : ℕ → Bool) where
  FirstIf-cons :
      (c : ℕ) (s : Buffer) (r : Option ℕ)
      → p c ≡ false
      → FirstIf p s r
      → FirstIf p (c ∷ s) (Option.map suc r)
  FirstIf-cons c s r h (inl (e, all)) = inl (ap (Option.map suc) e, (h, all))
  FirstIf-cons c s r h (inr (pre, x, post, e, all, hit, at)) =
      inr (c ∷ pre, x, post, ap (◌∷◌ c) e, (h, all), hit, ap (Option.map suc) at)

  find_if-cons_miss :
      (c : ℕ) (s : Buffer) → p c ≡ false → find_if p (c ∷ s) ≡ Option.map suc (find_if p s)
  unfolding find_if
  find_if-cons_miss c s miss = rw miss

  pub find_if-FirstIf : (s : Buffer) → FirstIf p s (find_if p s)
  unfolding find_if
  find_if-FirstIf [] = inl (refl, tt)
  find_if-FirstIf (c ∷ s) = elim (Bool-cases (p c)) [
    | inl hit ↦ inr ([], c, s, refl, tt, hit, rw hit)
    | inr miss ↦
        subst (FirstIf p (c ∷ s)) (sym (find_if-cons_miss c s miss))
          (FirstIf-cons c s (find_if p s) miss (find_if-FirstIf s))
  ]

  pub find_if-append_first :
      (pre : Buffer) (x : ℕ) (post : Buffer)
      → All (λ c. p c ≡ false) pre
      → p x ≡ true
      → find_if p (pre ++ x ∷ post) ≡ some (length pre)
  unfolding find_if
  find_if-append_first [] x post h hit = rw hit
  find_if-append_first (c ∷ pre) x post (miss, h) hit =
      rw (miss, find_if-append_first pre x post h hit)

  pub find_if-none : (s : Buffer) → All (λ c. p c ≡ false) s → find_if p s ≡ none
  unfolding find_if
  find_if-none [] h = refl
  find_if-none (c ∷ s) (miss, h) = rw (miss, find_if-none s h)

-- A needle of one byte.
pub find-singleton : (s : Buffer) (c : ℕ) → find s (c ∷ []) ≡ find_if (λ d. c == d) s
unfolding find find_if starts_with
find-singleton [] c = refl
find-singleton (d ∷ s) c = ground (arith, find-singleton s c)

-- The end of a first part is no position past the end.
pub ltb-length_append : (pre s : Buffer) → ltb (length (pre ++ s)) (length pre) ≡ false
ltb-length_append pre s = ground (arith, length-append pre s)

pub search_from-append :
    (f : Buffer → Option ℕ) (pre s : Buffer)
    → search_from f (pre ++ s) (length pre) ≡ Option.map (λ i. length pre + i) (f s)
search_from-append f pre s = rw (ltb-length_append pre s, drop-append_length pre s)

pub map_zero_add : (o : Option ℕ) → Option.map (λ i. 0 + i) o ≡ o
map_zero_add none = refl
map_zero_add (some i) = ap some (omega arith)

pub find_from_zero : (s needle : Buffer) → find_from s needle 0 ≡ find s needle
unfolding find_from
find_from_zero s needle = search_from-append (λ t. find t needle) [] s ∙ map_zero_add _

pub substr-append :
    (pre mid post : Buffer) → substr (pre ++ (mid ++ post)) (length pre) (length mid) ≡ ok mid
unfolding substr
substr-append pre mid post = rw (
  ltb-length_append pre (mid ++ post),
  drop-append_length pre (mid ++ post),
  take-append_length mid post,
)

-- A piece that runs to the end.
pub substr-append_end : (pre mid : Buffer) → substr (pre ++ mid) (length pre) (length mid) ≡ ok mid
substr-append_end pre mid =
    subst (λ (t : Buffer). substr (pre ++ t) (length pre) (length mid) ≡ ok mid) (append-nil mid)
      (substr-append pre mid [])

-- The same at a position that is only known to be the end of a first part.
pub search_from_at :
    (f : Buffer → Option ℕ) (b : Buffer) (n : ℕ) (pre s : Buffer)
    → b ≡ pre ++ s
    → n ≡ length pre
    → search_from f b n ≡ Option.map (λ i. n + i) (f s)
search_from_at f b n pre s e k = rw (e, k) (search_from-append f pre s)

pub substr_at :
    (b : Buffer) (n count : ℕ) (pre mid post : Buffer)
    → b ≡ pre ++ (mid ++ post)
    → n ≡ length pre
    → count ≡ length mid
    → substr b n count ≡ ok mid
substr_at b n count pre mid post e k c = rw (e, k, c) (substr-append pre mid post)
