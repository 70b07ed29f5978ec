-- ===== src/Http/Parser/Rounds.antt =====
-- The rounds of the loop of `Split`.
use mathlib.Core.Option
use small_http_server.Base.{
  ℕ, suc, ◌+◌, ◌-◌, ◌≡◌, refl, ap, ◌∙◌, List, [], ◌∷◌, ◌++◌, Option, none, some, arith, ltb,
  if◌then◌else◌, length, take, drop, length-append, length-take, append-nil,
}
use small_http_server.Exceptions.{Result, ok}
use small_http_server.Text.{Buffer, crlf, find, find_from, substr}
use small_http_server.Text.Search.{find_sound, find_bound}
use small_http_server.Text.Slices.{search_from_at, substr_at}
use small_http_server.Http.Parser.{next_pos, split_round, split_loop}

module _ (fuel : ℕ) (pre s : Buffer) (acc : List Buffer) where
  search :
      next_pos (pre ++ s) (length pre)
      ≡ Option.get_or (Option.map (λ i. length pre + i) (find s crlf)) (length (pre ++ s))
  unfolding find_from
  search =
      ap (λ (o : Option ℕ). Option.get_or o (length (pre ++ s)))
        (search_from_at (λ t. find t crlf) (pre ++ s) (length pre) pre s refl refl)

  abbrev round : ℕ → Option (Result (List Buffer))
  round next = split_round (split_loop fuel (pre ++ s)) (pre ++ s) (length pre) next acc

  step :
      (next : ℕ)
      → next_pos (pre ++ s) (length pre) ≡ next
      → split_loop (suc fuel) (pre ++ s) (length pre) acc ≡ round next
  unfolding split_loop
  step next e = ap round e

  round_last : round (length (pre ++ s)) ≡ some (ok (acc ++ s ∷ []))
  unfolding split_round
  round_last =
      let piece : substr (pre ++ s) (length pre) (length (pre ++ s) - length pre) ≡ ok s =
        substr_at (pre ++ s) (length pre) _ pre s [] (rw append-nil) refl
          (omega (arith, length-append pre s)) in
      rw (split_round, piece) (ground arith)

  pub step_last :
      find s crlf ≡ none
      → split_loop (suc fuel) (pre ++ s) (length pre) acc ≡ some (ok (acc ++ s ∷ []))
  step_last e = step (length (pre ++ s)) (search ∙ rw e) ∙ round_last

  round_cut :
      (i : ℕ)
      → find s crlf ≡ some i
      → round (length pre + i) ≡ (
          if ltb (length pre + i + 2) (length (pre ++ s))
          then split_loop fuel (pre ++ s) (length pre + i + 2) (acc ++ take i s ∷ [])
          else some (ok (acc ++ take i s ∷ [])))
  unfolding split_round
  round_cut i e =
      let piece : substr (pre ++ s) (length pre) (length pre + i - length pre) ≡ ok (take i s) =
        substr_at (pre ++ s) (length pre) _ pre (take i s) (crlf ++ drop (i + 2) s)
          (ap (◌++◌ pre) (find_sound s crlf i e)) refl
          (omega (arith, length-take i s, find_bound s crlf i e)) in
      rw (split_round, piece) (ground (arith, length-append pre s, find_bound s crlf i e))

  pub step_cut :
      (i : ℕ)
      → find s crlf ≡ some i
      → split_loop (suc fuel) (pre ++ s) (length pre) acc ≡ (
          if ltb (length pre + i + 2) (length (pre ++ s))
          then split_loop fuel (pre ++ s) (length pre + i + 2) (acc ++ take i s ∷ [])
          else some (ok (acc ++ take i s ∷ [])))
  step_cut i e = step (length pre + i) (search ∙ rw e) ∙ round_cut i e
