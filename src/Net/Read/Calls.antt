-- ===== src/Net/Read/Calls.antt =====
-- What `Read` makes of a request that comes in one call of recv.
use small_http_server.Base.{
  ℕ, suc, ◌+◌, ◌-◌, ◌≤◌, ◌≡◌, ◌≢◌, refl, sym, ap, subst, ◌∙◌, inl, inr, false, [], ◌∷◌, some, arith,
  length, length-append, take, Bool-cases,
}
use small_http_server.Base.Int.{pos, negsuc}
use small_http_server.Exceptions.{ok}
use small_http_server.Run.{continue}
use small_http_server.Text.{Buffer}
use small_http_server.Http.Parser.{end_packet, is_blank_line}
use small_http_server.Http.Parser.BlankLine.{EndsBlank, is_blank_line_iff, is_blank_line-returns}
use small_http_server.Net.Transport.{Transport, Received, received}
use small_http_server.Net.Read.{resize, write_at, buffer_size, read_loop, read_end, read}
use small_http_server.Net.Read.Buffers.{length-resize, resize_le, length-write_at, take-write_at}

not_blank :
    (at : ℕ) (buffer : Buffer)
    → at ≤ length buffer
    → ¬ EndsBlank (take at buffer)
    → is_blank_line at buffer ≡ ok false
not_blank at buffer h n =
    let (blank, e) = is_blank_line-returns at buffer h in
    elim (Bool-cases blank) [
      | inl yes_blank ↦ absurd (n ((is_blank_line_iff at buffer h).0 (e ∙ ap ok yes_blank)))
      | inr not_yet ↦ e ∙ ap ok not_yet
    ]

nil-not-EndsBlank : ¬ EndsBlank []
nil-not-EndsBlank (body, e) = omega (arith, ap length e, length-append body end_packet)

module _ (t : Transport) where
  open t use {State, recv}

  read_end_positive :
      (n at : ℕ) (buffer : Buffer) (s : State)
      → read_end t (pos (suc n), at, buffer) s ≡ some (ok (pos at, resize at buffer), s)
  unfolding read_end
  read_end_positive n at buffer s = refl

  read_end_failed :
      (code at : ℕ) (buffer : Buffer) (s : State)
      → read_end t (negsuc code, at, buffer) s ≡ some (ok (negsuc code, buffer), s)
  unfolding read_end
  read_end_failed code at buffer s = refl

  -- One round of the loop, with `offset + size` bytes in the buffer.
  module _ (fuel : ℕ) (buffer : Buffer) (size offset : ℕ) (s : State)
      (within : offset + size ≤ length buffer) where
    round_blank :
        EndsBlank (take (offset + size) buffer)
        → read_loop t (suc fuel) buffer size offset s
          ≡ some (ok (pos size, offset + size, buffer), s)
    unfolding read_loop
    round_blank blank = rw ((is_blank_line_iff (offset + size) buffer within).1 blank)

    round_received :
        (b : ℕ) (bytes : Buffer) (s' : State)
        → ¬ EndsBlank (take (offset + size) buffer)
        → recv (length buffer - (offset + size)) s ≡ (received (b ∷ bytes), s')
        → read_loop t (suc fuel) buffer size offset s
          ≡ read_loop t fuel
              (write_at (offset + size) (b ∷ bytes) buffer)
              (length (b ∷ bytes))
              (offset + size)
              s'
    unfolding read_loop
    round_received b bytes s' n e = rw (not_blank (offset + size) buffer within n, e)

    round_failed :
        (code : ℕ) (s' : State)
        → ¬ EndsBlank (take (offset + size) buffer)
        → recv (length buffer - (offset + size)) s ≡ (Received.failed code, s')
        → read_loop t (suc fuel) buffer size offset s
          ≡ some (ok (negsuc code, offset + size, buffer), s')
    unfolding read_loop
    round_failed code s' n e = rw (not_blank (offset + size) buffer within n, e)

  -- The first call of recv on an empty buffer.
  module _ (fuel : ℕ) (buffer : Buffer) (b : ℕ) (bytes : Buffer) (s s' : State)
      (whole : length buffer ≡ buffer_size)
      (first : recv buffer_size s ≡ (received (b ∷ bytes), s')) where
    abbrev filled : Buffer
    filled = write_at (0 + 0) (b ∷ bytes) buffer

    fits : 0 + 0 + length (b ∷ bytes) ≤ length buffer
    fits = omega (arith, (t.recv_received buffer_size s s' (b ∷ bytes) first).0, whole)

    length-filled : length filled ≡ buffer_size
    length-filled = length-write_at (0 + 0) (b ∷ bytes) buffer fits ∙ whole

    take-filled : take (0 + 0 + length (b ∷ bytes)) filled ≡ b ∷ bytes
    take-filled = take-write_at (0 + 0) (b ∷ bytes) buffer fits

    after_first :
        read_loop t (suc (suc fuel)) buffer 0 0 s
        ≡ read_loop t (suc fuel) filled (length (b ∷ bytes)) (0 + 0) s'
    after_first =
        round_received (suc fuel) buffer 0 0 s (omega arith) b bytes s' nil-not-EndsBlank
          (subst (λ (n : ℕ). recv n s ≡ (received (b ∷ bytes), s')) (omega (arith, whole)) first)

    one_call :
        EndsBlank (b ∷ bytes)
        → continue (read_loop t (suc (suc fuel)) buffer 0 0 s) (read_end t)
          ≡ some (ok (pos (length (b ∷ bytes)), b ∷ bytes), s')
    one_call blank =
        rw
          (
            after_first,
            round_blank fuel filled (length (b ∷ bytes)) (0 + 0) s'
                (omega (arith, fits, whole, length-filled))
                (subst EndsBlank (sym take-filled) blank),
          )
          (read_end_positive (length bytes) (0 + length (b ∷ bytes)) filled s'
            ∙ ap (λ (r : Buffer). some (ok (pos (0 + length (b ∷ bytes)), r), s'))
                (ap (λ (k : ℕ). resize k filled) (omega arith)
                  ∙ resize_le (0 + 0 + length (b ∷ bytes)) filled
                      (omega (arith, fits, whole, length-filled))
                  ∙ take-filled)
            ∙ ap (λ (k : ℕ). some (ok (pos k, b ∷ bytes), s')) (omega arith))

    hidden_blank :
        (code : ℕ) (s'' : State)
        → ¬ EndsBlank (b ∷ bytes)
        → recv (buffer_size - length (b ∷ bytes)) s' ≡ (Received.failed code, s'')
        → continue (read_loop t (suc (suc fuel)) buffer 0 0 s) (read_end t)
          ≡ some (ok (negsuc code, filled), s'')
    hidden_blank code s'' n next =
        rw
          (
            after_first,
            round_failed fuel filled (length (b ∷ bytes)) (0 + 0) s'
                (omega (arith, fits, whole, length-filled)) code s''
                (λ blank. n (subst EndsBlank take-filled blank))
                (subst (λ (k : ℕ). recv k s' ≡ (Received.failed code, s''))
                  (omega (arith, length-filled)) next),
          )
          (read_end_failed code (0 + length (b ∷ bytes)) filled s'')

  -- A whole request that arrives in one call is returned as it is.
  pub read_one_call :
      (buffer bytes : Buffer) (s s' : State)
      → recv buffer_size s ≡ (received bytes, s')
      → EndsBlank bytes
      → read t buffer s ≡ some (ok (pos (length bytes), bytes), s')
  unfolding read
  read_one_call buffer [] s s' first blank = absurd (nil-not-EndsBlank blank)
  read_one_call buffer (b ∷ bytes) s s' first blank =
      one_call buffer_size (resize buffer_size buffer) b bytes s s'
        (length-resize buffer_size buffer) first blank

  -- Bytes that come in one call and do not end in a blank line, though they may hold one, make
  -- `Read` wait for another call; where that fails, `Read` returns its failure.
  pub read_hidden_blank :
      (buffer bytes : Buffer) (s s' s'' : State) (code : ℕ)
      → bytes ≢ []
      → ¬ EndsBlank bytes
      → recv buffer_size s ≡ (received bytes, s')
      → recv (buffer_size - length bytes) s' ≡ (Received.failed code, s'')
      → (left : Buffer) × (read t buffer s ≡ some (ok (negsuc code, left), s''))
  unfolding read
  read_hidden_blank buffer [] s s' s'' code some_bytes n first next = absurd (some_bytes refl)
  read_hidden_blank buffer (b ∷ bytes) s s' s'' code some_bytes n first next = (
    _,
    hidden_blank buffer_size (resize buffer_size buffer) b bytes s s'
        (length-resize buffer_size buffer) first code s'' n next,
  )
