-- ===== src/Http/Parser/Header.antt =====
-- How `Parse` reads the first line of a request: which lines it accepts, what it takes from them,
-- and why it refuses the others.
use mathlib.Core.Option
use small_http_server.Base.{
  ℕ, ◌+◌, ◌-◌, ◌≡◌, refl, sym, ap, subst, ◌∙◌, ◌≢◌, ◌↔◌, ◌⊎◌, inl, inr, true, false, [], ◌∷◌, ◌++◌,
  Option, none, some, arith, ◌==◌, length, All, All-imp, length-append, append_assoc,
}
use small_http_server.Exceptions.{Result, ok, throw, parse_exception}
use small_http_server.Text.{
  Buffer, codes, find_from, find_if, find_first_of, contains, substr, str_eq,
}
use small_http_server.Text.Slices.{
  FirstIf, find_if-FirstIf, find_if-append_first, find_if-none, find-singleton, find_from_zero,
  search_from-append, substr-append,
}
use small_http_server.Http.Packet.{Packet, add_param, insert, command_param, path_param}
use small_http_server.Http.Parser.{parse_header}

abbrev pub IsNotSpace : ℕ → Type 0
IsNotSpace c = c ≢ b' '

-- A byte of the path: neither a space nor a question mark.
abbrev pub IsPathByte : ℕ → Type 0
IsPathByte c = (c ≢ b' ') × (c ≢ b'?')

-- The lines, with what is read from each.
pub data HeaderLine (header : Buffer) : Result Packet → Type 0 where
  no_space : All IsNotSpace header → HeaderLine header (throw (parse_exception "doesn't find ' '"))
  no_path_end :
      (command tail : Buffer)
      → header ≡ command ++ b' ' ∷ tail
      → All IsNotSpace command
      → All IsPathByte tail
      → HeaderLine header (throw (parse_exception "doesn't find ' ?'"))
  request_line :
      (command path : Buffer) (sep : ℕ) (rest : Buffer)
      → header ≡ command ++ b' ' ∷ (path ++ sep ∷ rest)
      → All IsNotSpace command
      → All IsPathByte path
      → (sep ≡ b' ') ⊎ (sep ≡ b'?')
      → HeaderLine header
          (ok (record { params = (command_param, command) ∷ (path_param, path) ∷ [] }))

find_space :
    (command tail : Buffer)
    → All IsNotSpace command
    → find_from (command ++ b' ' ∷ tail) (codes " ") 0 ≡ some (length command)
find_space command tail h =
    find_from_zero (command ++ b' ' ∷ tail) (codes " ")
    ∙ find-singleton (command ++ b' ' ∷ tail) b' '
    ∙ find_if-append_first (λ d. b' ' == d) command b' ' tail
        (All-imp command (λ c p. ground arith) h) refl

-- A text after the space, where the search for the end of the path begins.
at_tail :
    (command tail : Buffer) (P : Buffer → ℕ → Type 0)
    → P ((command ++ b' ' ∷ []) ++ tail) (length (command ++ b' ' ∷ []))
    → P (command ++ b' ' ∷ tail) (length command + 1)
at_tail command tail P h =
    subst (λ (s : Buffer). P s (length command + 1)) (append_assoc command (b' ' ∷ []) tail)
      (subst (P ((command ++ b' ' ∷ []) ++ tail)) (length-append command (b' ' ∷ [])) h)

find_path_end :
    (command tail : Buffer)
    → find_first_of (command ++ b' ' ∷ tail) (codes " ?") (length command + 1)
      ≡ Option.map (λ i. length command + 1 + i) (find_if (contains (codes " ?")) tail)
unfolding find_first_of
find_path_end command tail =
    at_tail command tail
      (λ header start.
        find_first_of header (codes " ?") start
        ≡ Option.map (λ i. start + i) (find_if (contains (codes " ?")) tail))
      (search_from-append (find_if (contains (codes " ?"))) (command ++ b' ' ∷ []) tail)

parse_header-no_space :
    (header : Buffer)
    → All IsNotSpace header
    → parse_header header ≡ throw (parse_exception "doesn't find ' '")
unfolding parse_header
parse_header-no_space header h = rw (missing)
  where
    missing : find_from header (codes " ") 0 ≡ none
    missing =
        find_from_zero header (codes " ")
        ∙ find-singleton header b' '
        ∙ find_if-none (λ d. b' ' == d) header (All-imp header (λ c p. ground arith) h)

-- The bytes that end the path.
path_end_iff : (c : ℕ) → (contains (codes " ?") c ≡ true) ↔ ((c ≡ b' ') ⊎ (c ≡ b'?'))
unfolding contains
path_end_iff c = ground arith

IsPathByte-iff : (c : ℕ) → (contains (codes " ?") c ≡ false) ↔ IsPathByte c
unfolding contains
IsPathByte-iff c = ground arith

command_cut :
    (command tail : Buffer) → substr (command ++ b' ' ∷ tail) 0 (length command) ≡ ok command
command_cut command tail = substr-append [] command (b' ' ∷ tail)

parse_header-no_path_end :
    (command tail : Buffer)
    → All IsNotSpace command
    → All IsPathByte tail
    → parse_header (command ++ b' ' ∷ tail) ≡ throw (parse_exception "doesn't find ' ?'")
unfolding parse_header
parse_header-no_path_end command tail h k = rw (
  find_space command tail h,
  command_cut command tail,
  find_path_end command tail,
  find_if-none (contains (codes " ?")) tail (All-imp tail (λ c p. (IsPathByte-iff c).1 p) k),
)

path_cut :
    (command path : Buffer) (sep : ℕ) (rest : Buffer)
    → substr
        (command ++ b' ' ∷ (path ++ sep ∷ rest))
        (length command + 1)
        (length command + 1 + length path - (length command + 1))
      ≡ ok path
path_cut command path sep rest =
    at_tail command (path ++ sep ∷ rest)
      (λ header start. substr header start (start + length path - start) ≡ ok path)
      (subst
        (λ (n : ℕ).
          substr ((command ++ b' ' ∷ []) ++ (path ++ sep ∷ rest)) (length (command ++ b' ' ∷ [])) n
          ≡ ok path)
        (omega arith) (substr-append (command ++ b' ' ∷ []) path (sep ∷ rest)))

parse_header-request_line :
    (command path : Buffer) (sep : ℕ) (rest : Buffer)
    → All IsNotSpace command
    → All IsPathByte path
    → (sep ≡ b' ') ⊎ (sep ≡ b'?')
    → parse_header (command ++ b' ' ∷ (path ++ sep ∷ rest))
      ≡ ok (record { params = (command_param, command) ∷ (path_param, path) ∷ [] })
unfolding parse_header add_param insert str_eq
parse_header-request_line command path sep rest h k e = rw (
  find_space command (path ++ sep ∷ rest) h,
  command_cut command (path ++ sep ∷ rest),
  find_path_end command (path ++ sep ∷ rest),
  find_if-append_first (contains (codes " ?")) path sep rest
      (All-imp path (λ c p. (IsPathByte-iff c).1 p) k) ((path_end_iff sep).1 e),
  path_cut command path sep rest,
)

-- The parser's answer is the one that the line's form asks for.
parse_header_complete :
    (header : Buffer) (r : Result Packet) → HeaderLine header r → parse_header header ≡ r
parse_header_complete header r (no_space h) = parse_header-no_space header h
parse_header_complete header r (no_path_end command tail e h k) =
    ap parse_header e ∙ parse_header-no_path_end command tail h k
parse_header_complete header r (request_line command path sep rest e h k s) =
    ap parse_header e ∙ parse_header-request_line command path sep rest h k s

module _ (header command tail : Buffer) (split : header ≡ command ++ b' ' ∷ tail)
    (h : All IsNotSpace command) where
  HeaderLine-of_tail :
      (o : Option ℕ)
      → FirstIf (contains (codes " ?")) tail o
      → (r : Result Packet) × HeaderLine header r
  HeaderLine-of_tail o (inl (_, k)) =
      (_, no_path_end command tail split h (All-imp tail (λ c p. (IsPathByte-iff c).0 p) k))
  HeaderLine-of_tail o (inr (path, sep, rest, e, k, s, _)) = (
    _,
    request_line command path sep rest (split ∙ ap (λ (t : Buffer). command ++ b' ' ∷ t) e) h
        (All-imp path (λ c p. (IsPathByte-iff c).0 p) k) ((path_end_iff sep).0 s),
  )

HeaderLine-of_find :
    (header : Buffer) (o : Option ℕ)
    → FirstIf (λ d. b' ' == d) header o
    → (r : Result Packet) × HeaderLine header r
HeaderLine-of_find header o (inl (_, h)) = (_, no_space (All-imp header (λ c p. ground arith) h))
HeaderLine-of_find header o (inr (command, x, tail, e, h, hit, _)) =
    HeaderLine-of_tail header command tail (e ∙ ap (λ (c : ℕ). command ++ c ∷ tail) (ground arith))
      (All-imp command (λ c p. ground arith) h) _ (find_if-FirstIf (contains (codes " ?")) tail)

-- Every line has one of the three forms.
HeaderLine-total : (header : Buffer) → (r : Result Packet) × HeaderLine header r
HeaderLine-total header = HeaderLine-of_find header _ (find_if-FirstIf (λ d. b' ' == d) header)

-- The parser accepts exactly the lines `command ' ' path (' ' | '?') rest`, and reads the command
-- and the path from them; it refuses a line with no space, and one whose path has no end, each with
-- its own reason.
pub parse_header_iff :
    (header : Buffer) (r : Result Packet) → (parse_header header ≡ r) ↔ HeaderLine header r
parse_header_iff header r = (
  λ e.
      let (found, line) = HeaderLine-total header in
      subst (HeaderLine header) (sym (parse_header_complete header found line) ∙ e) line,
  parse_header_complete header r,
)
