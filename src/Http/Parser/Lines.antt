-- ===== src/Http/Parser/Lines.antt =====
-- What `Split` makes of a buffer.
use native.Mathlib.Decide.{dec_lt}
use small_http_server.Base.{
  list_laws, ℕ, zero, suc, ◌+◌, ◌≤◌, ◌<◌, ◌≡◌, refl, sym, ap, subst, ◌∙◌, ◌≢◌, ◌⊎◌, inl, inr, false,
  List, [], ◌∷◌, ◌++◌, some, arith, ltb, ltb→lt, Bool-cases, Option-cases, length, take, drop,
  drop_all, drop-append_le, All, length-append, length-take, length-drop, append_assoc,
}
use small_http_server.Exceptions.{ok}
use small_http_server.Text.{Buffer, crlf, find, starts_with}
use small_http_server.Text.Search.{find_sound, find_bound, find_first, find-none}
use small_http_server.Http.Parser.{split_loop, split}
use small_http_server.Http.Parser.Rounds.{step_last, step_cut}

-- Lines joined by line ends, with none after the last.
unfoldable pub join_lines : List Buffer → Buffer
join_lines [] = []
join_lines (l ∷ []) = l
join_lines (l ∷ (m ∷ ls)) = l ++ (crlf ++ join_lines (m ∷ ls))

-- A text without a line end inside.
abbrev pub IsLine : Buffer → Type 0
IsLine l = (j : ℕ) → starts_with crlf (drop j l) ≡ false

starts_with-append_right :
    (needle s t : Buffer) → starts_with needle (s ++ t) ≡ false → starts_with needle s ≡ false
unfolding starts_with
starts_with-append_right [] s t h = cc
starts_with-append_right (c ∷ needle) [] t h = refl
starts_with-append_right (c ∷ needle) (d ∷ s) t h =
    ground (arith, starts_with-append_right needle s t)

drop_before :
    (s : Buffer) (i j : ℕ)
    → find s crlf ≡ some i
    → j < i
    → drop j s ≡ drop j (take i s) ++ (crlf ++ drop (i + 2) s)
drop_before s i j e h =
    ap (drop j) (find_sound s crlf i e)
    ∙ drop-append_le j (take i s) (crlf ++ drop (i + 2) s)
        (omega (arith, length-take i s, find_bound s crlf i e))

-- What stands before the first line end is a line.
take-IsLine : (s : Buffer) (i : ℕ) → find s crlf ≡ some i → IsLine (take i s)
unfolding starts_with
take-IsLine s i e j = elim (dec_lt j i) [
  | yes before ↦ starts_with-append_right crlf (drop j (take i s)) (crlf ++ drop (i + 2) s) (
      subst (λ (t : Buffer). starts_with crlf t ≡ false) (drop_before s i j e before)
        (find_first s crlf i e j before))
  | no after ↦ rw (drop_all j (take i s) (omega (arith, length-take i s)))
]

-- What the loop adds for the rest `s` of the buffer.
abbrev Cuts : Buffer → List Buffer → Type 0
Cuts s ls = All IsLine ls × ((join_lines ls ≡ s) ⊎ (join_lines ls ++ crlf ≡ s))

Cuts-cons :
    (l s t m : Buffer) (ls : List Buffer)
    → s ≡ l ++ (crlf ++ t)
    → IsLine l
    → Cuts t (m ∷ ls)
    → Cuts s (l ∷ (m ∷ ls))
unfolding join_lines
Cuts-cons l s t m ls e h (lines, inl j) =
    ((h, lines), inl (ap (λ (x : Buffer). l ++ (crlf ++ x)) j ∙ sym e))
Cuts-cons l s t m ls e h (lines, inr j) = (
  (h, lines),
  inr (
      append_assoc l (crlf ++ join_lines (m ∷ ls)) crlf
      ∙ ap (λ (x : Buffer). l ++ (crlf ++ x)) j
      ∙ sym e),
)

join_lines-singleton : (s : Buffer) → join_lines (s ∷ []) ≡ s
unfolding join_lines
join_lines-singleton s = refl

-- The loop ends on a text whose last bytes are a line end.
Cuts-ended : (s : Buffer) (i : ℕ) → find s crlf ≡ some i → length s ≤ i + 2 → Cuts s (take i s ∷ [])
unfolding join_lines
Cuts-ended s i e h = (
  (take-IsLine s i e, tt),
  inr (
      ap (λ (x : Buffer). take i s ++ (crlf ++ x)) (sym (drop_all (i + 2) s h))
      ∙ sym (find_sound s crlf i e)),
)

-- The loop's state after a line is that of a later start.
next_line :
    (fuel : ℕ) (pre s : Buffer) (i : ℕ) (acc : List Buffer)
    → find s crlf ≡ some i
    → split_loop fuel (pre ++ s) (length pre + i + 2) acc
      ≡ split_loop fuel
          ((pre ++ (take i s ++ crlf)) ++ drop (i + 2) s)
          (length (pre ++ (take i s ++ crlf)))
          acc
next_line fuel pre s i acc e =
    ap (λ (b : Buffer). split_loop fuel b (length pre + i + 2) acc)
      (ap (◌++◌ pre) (find_sound s crlf i e) ∙ simp list_laws)
    ∙ ap (λ (n : ℕ). split_loop fuel ((pre ++ (take i s ++ crlf)) ++ drop (i + 2) s) n acc)
        (omega (
          arith,
          length-append pre (take i s ++ crlf),
          length-append (take i s) crlf,
          length-take i s,
          find_bound s crlf i e,
        ))

-- The loop's result on `s`.
abbrev Splits : ℕ → Buffer → Buffer → List Buffer → Type 0
Splits fuel pre s acc =
    (l : Buffer) × (ls : List Buffer) × (split_loop fuel (pre ++ s) (length pre) acc
      ≡ some (ok (acc ++ l ∷ ls)))
    × Cuts s (l ∷ ls)

drop-ne-nil : (s : Buffer) (i : ℕ) → i + 2 < length s → drop (i + 2) s ≢ []
drop-ne-nil s i h e = omega (arith, ap length e, length-drop (i + 2) s)

Splits-cut :
    (fuel : ℕ) (pre s : Buffer) (acc : List Buffer) (i : ℕ)
    → find s crlf ≡ some i
    → (drop (i + 2) s ≢ []
        → Splits fuel (pre ++ (take i s ++ crlf)) (drop (i + 2) s) (acc ++ take i s ∷ []))
    → Splits (suc fuel) pre s acc
Splits-cut fuel pre s acc i e later =
    elim (Bool-cases (ltb (length pre + i + 2) (length (pre ++ s)))) [
      | inl more ↦
          let left : length pre + i + 2 < length (pre ++ s) = ltb→lt _ _ more in
          let (m, ls, run, cuts) = later (drop-ne-nil s i (omega (arith, length-append pre s))) in
          (
            take i s,
            m ∷ ls,
            step_cut fuel pre s acc i e
                ∙ rw more (
                    next_line fuel pre s i (acc ++ take i s ∷ []) e
                    ∙ run
                    ∙ ap (λ (x : List Buffer). some (ok x))
                        (append_assoc acc (take i s ∷ []) (m ∷ ls))),
            Cuts-cons (take i s) s (drop (i + 2) s) m ls (find_sound s crlf i e) (take-IsLine s i e)
                cuts,
          )
      | inr done ↦ (
        take i s,
        [],
        step_cut fuel pre s acc i e ∙ rw done,
        Cuts-ended s i e (ground (arith, length-append pre s)),
      )
    ]

split_loop-Splits :
    (fuel : ℕ) (pre s : Buffer) (acc : List Buffer)
    → s ≢ []
    → length s ≤ fuel
    → Splits fuel pre s acc
split_loop-Splits zero pre [] acc n h = absurd (n refl)
split_loop-Splits zero pre (c ∷ s) acc n h = absurd (omega arith)
split_loop-Splits (suc fuel) pre s acc n h = elim (Option-cases (find s crlf)) [
  | inl missing ↦ (
    s,
    [],
    step_last fuel pre s acc missing,
    ((find-none s crlf missing, tt), inl (join_lines-singleton s)),
  )
  | inr (i, found) ↦ Splits-cut fuel pre s acc i found (λ more.
      split_loop-Splits fuel (pre ++ (take i s ++ crlf)) (drop (i + 2) s) (acc ++ take i s ∷ [])
        more (omega (arith, length-drop (i + 2) s)))
]

-- `Split` returns for every buffer: lines with no line end inside, which make up the buffer again,
-- up to a line end at its end.
pub split-Cuts :
    (buffer : Buffer)
    → (ls : List Buffer) × (split buffer ≡ some (ok ls))
      × All IsLine ls
      × ((join_lines ls ≡ buffer) ⊎ (join_lines ls ++ crlf ≡ buffer))
unfolding split join_lines
split-Cuts [] = ([], refl, tt, inl refl)
split-Cuts (c ∷ s) =
    let (l, ls, run, (lines, joined)) =
      split_loop-Splits (length (c ∷ s)) [] (c ∷ s) [] (λ e. cc) (omega arith) in
    (l ∷ ls, run, lines, joined)
