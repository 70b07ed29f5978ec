-- ===== src/Http/Parser/BlankLine.antt =====
-- When `IsBlankLine` holds.
use native.Mathlib.Decide.{dec_lt}
use small_http_server.Base.{
  ℕ, ◌+◌, ◌-◌, ◌≤◌, ◌<◌, ◌≡◌, sym, ap, ◌∙◌, ◌↔◌, Bool, true, false, ◌++◌, arith, ltb, leb, length,
  take, drop, length-append, length-take, take-drop_add, drop-append_length,
}
use small_http_server.Exceptions.{ok}
use small_http_server.Text.{Buffer, str_eq, substr}
use small_http_server.Text.Search.{str_eq_iff}
use small_http_server.Http.Parser.{end_packet, is_blank_line}

-- A text whose last four bytes are "\r\n\r\n".
abbrev pub EndsBlank : Buffer → Type 0
EndsBlank s = (body : Buffer) × (s ≡ body ++ end_packet)

abbrev last_bytes : ℕ → Buffer → Buffer
last_bytes offset buffer = take 4 (drop (offset - 4) buffer)

is_blank_line_long :
    (offset : ℕ) (buffer : Buffer)
    → 4 ≤ offset
    → offset ≤ length buffer
    → is_blank_line offset buffer ≡ ok (str_eq (last_bytes offset buffer) end_packet)
unfolding is_blank_line substr
is_blank_line_long offset buffer h k =
    let long : leb 4 offset ≡ true = ground arith in
    let inside : ltb (length buffer) (offset - 4) ≡ false = ground arith in rw (long, inside)

is_blank_line_short :
    (offset : ℕ) (buffer : Buffer) → offset < 4 → is_blank_line offset buffer ≡ ok false
unfolding is_blank_line
is_blank_line_short offset buffer h = let short : leb 4 offset ≡ false = ground arith in rw short

first_part_split :
    (offset : ℕ) (buffer : Buffer)
    → 4 ≤ offset
    → take offset buffer ≡ take (offset - 4) buffer ++ last_bytes offset buffer
first_part_split offset buffer h =
    sym (take-drop_add (offset - 4) 4 buffer ∙ ap (λ (k : ℕ). take k buffer) (omega arith))

-- The test reads four bytes of the buffer at most, and never throws inside it.
pub is_blank_line-returns :
    (offset : ℕ) (buffer : Buffer)
    → offset ≤ length buffer
    → (blank : Bool) × (is_blank_line offset buffer ≡ ok blank)
is_blank_line-returns offset buffer h = elim (dec_lt offset 4) [
  | yes short ↦ (false, is_blank_line_short offset buffer short)
  | no long ↦ (_, is_blank_line_long offset buffer (omega arith) h)
]

EndsBlank-of_test :
    (offset : ℕ) (buffer : Buffer)
    → offset ≤ length buffer
    → is_blank_line offset buffer ≡ ok true
    → EndsBlank (take offset buffer)
EndsBlank-of_test offset buffer h e = elim (dec_lt offset 4) [
  | yes short ↦ absurd (cc (is_blank_line_short offset buffer short))
  | no long ↦
      let test : str_eq (last_bytes offset buffer) end_packet ≡ true =
        cc (is_blank_line_long offset buffer (omega arith) h) in
      (
        take (offset - 4) buffer,
        first_part_split offset buffer (omega arith)
            ∙ ap (◌++◌ (take (offset - 4) buffer)) ((str_eq_iff _ end_packet).0 test),
      )
]

test_of_EndsBlank :
    (offset : ℕ) (buffer : Buffer)
    → offset ≤ length buffer
    → EndsBlank (take offset buffer)
    → is_blank_line offset buffer ≡ ok true
test_of_EndsBlank offset buffer h (body, e) =
    let size : offset ≡ length body + 4 =
      omega (arith, ap length e, length-take offset buffer, length-append body end_packet) in
    let start : length body ≡ length (take (offset - 4) buffer) =
      omega (arith, length-take (offset - 4) buffer, size) in
    let same : last_bytes offset buffer ≡ end_packet =
      sym (drop-append_length (take (offset - 4) buffer) (last_bytes offset buffer))
      ∙ ap (drop (length (take (offset - 4) buffer)))
          (sym (first_part_split offset buffer (omega (arith, size))) ∙ e)
      ∙ ap (λ (k : ℕ). drop k (body ++ end_packet)) (sym start)
      ∙ drop-append_length body end_packet in
    is_blank_line_long offset buffer (omega (arith, size)) h
    ∙ ap ok ((str_eq_iff _ end_packet).1 same)

-- The test holds exactly where the first `offset` bytes end in a blank line.
pub is_blank_line_iff :
    (offset : ℕ) (buffer : Buffer)
    → offset ≤ length buffer
    → (is_blank_line offset buffer ≡ ok true) ↔ EndsBlank (take offset buffer)
is_blank_line_iff offset buffer h =
    (EndsBlank-of_test offset buffer h, test_of_EndsBlank offset buffer h)
