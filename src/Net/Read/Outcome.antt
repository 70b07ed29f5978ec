-- ===== src/Net/Read/Outcome.antt =====
-- What `Read` returns, and what it has then consumed.
use small_http_server.Base.{
  ℕ, zero, suc, ◌+◌, ◌-◌, ◌≤◌, ◌<◌, ◌≡◌, refl, sym, ap, subst, ◌∙◌, Bool, true, false, [], ◌∷◌,
  ◌++◌, Option, some, arith, length, take, length-append, length-take, append_assoc, append-nil,
}
use small_http_server.Base.Int.{ℤ, pos, negsuc}
use small_http_server.Exceptions.{Result, ok}
use small_http_server.Run.{continue}
use small_http_server.Text.{Buffer}
use small_http_server.Http.Parser.{end_packet, is_blank_line}
use small_http_server.Http.Parser.BlankLine.{EndsBlank, is_blank_line_iff, is_blank_line-returns}
use small_http_server.Net.Transport.{Transport, Received, received, failed}
use small_http_server.Net.Read.{
  resize, write_at, buffer_size, Ended, after_recv, read_round, read_loop, read_end, read,
}
use small_http_server.Net.Read.Buffers.{length-resize, resize_le, length-write_at, take-write_at}

module _ (t : Transport) where
  open t use {State, recv, consumed, delivered, recv_received, recv_failed}

  -- How a call of `Read` ends, from state `s`, with the buffer that it leaves. Nothing is sent.
  pub data ReadEnd (s : State) : ℤ → Buffer → State → Type 0 where
    -- A blank line stands at the end of what the calls handed over: it is all returned.
    packet :
        {s' : State} (buffer : Buffer)
        → EndsBlank buffer
        → length buffer ≤ buffer_size
        → consumed s' ≡ consumed s ++ buffer
        → delivered s' ≡ delivered s
        → ReadEnd s (pos (length buffer)) buffer s'
    -- The stream ended, or the buffer is full, with no blank line at the end of what came.
    closed :
        {s' : State} (buffer : Buffer) (at : ℕ) (before : State)
        → ¬ EndsBlank (take at buffer)
        → recv (buffer_size - at) before ≡ (received [], s')
        → consumed s' ≡ consumed s ++ take at buffer
        → delivered s' ≡ delivered s
        → ReadEnd s (pos 0) buffer s'
    -- A call failed before.
    broken :
        {s' : State} (buffer : Buffer) (at code : ℕ) (before : State)
        → ¬ EndsBlank (take at buffer)
        → recv (buffer_size - at) before ≡ (Received.failed code, s')
        → consumed s' ≡ consumed s ++ take at buffer
        → delivered s' ≡ delivered s
        → ReadEnd s (negsuc code) buffer s'

  module _ (s₀ : State) where
    abbrev Ends : Option (Result Ended × State) → Type 0
    Ends r =
        (size : ℤ) × (buffer : Buffer) × (s' : State) × (continue r (read_end t)
          ≡ some (ok (size, buffer), s'))
        × ReadEnd s₀ size buffer s'

    -- The loop's state when `at` bytes are in the buffer, the last `size` of them new.
    record Filled (buffer : Buffer) (size at : ℕ) (s : State) : Type 0 where
      whole : length buffer ≡ buffer_size
      within : at ≤ length buffer
      moved : 0 < at → 0 < size
      so_far : consumed s ≡ consumed s₀ ++ take at buffer
      quiet : delivered s ≡ delivered s₀

    Filled-received :
        (buffer bytes : Buffer) (size at : ℕ) (s s' : State)
        → Filled buffer size at s
        → recv (length buffer - at) s ≡ (received bytes, s')
        → 0 < length bytes
        → Filled (write_at at bytes buffer) (length bytes) (at + length bytes) s'
    Filled-received buffer bytes size at s s' f e some_bytes =
        let (bound, more, quiet) = recv_received (length buffer - at) s s' bytes e in
        let fits : at + length bytes ≤ length buffer = omega (arith, bound, f.within) in
        let size = length-write_at at bytes buffer fits in
        record {
          whole = size ∙ f.whole;
          within = omega (arith, size, fits);
          moved = λ _. some_bytes;
          so_far =
              more
              ∙ ap (λ (b : Buffer). b ++ bytes) f.so_far
              ∙ append_assoc (consumed s₀) (take at buffer) bytes
              ∙ ap (◌++◌ (consumed s₀)) (sym (take-write_at at bytes buffer fits));
          quiet = quiet ∙ f.quiet;
        }

    length_at : (buffer : Buffer) (at : ℕ) → at ≤ length buffer → length (take at buffer) ≡ at
    length_at buffer at h = omega (arith, length-take at buffer)

    asked :
        (buffer : Buffer) (at : ℕ) (s s' : State) (answer : Received)
        → length buffer ≡ buffer_size
        → recv (length buffer - at) s ≡ (answer, s')
        → recv (buffer_size - at) s ≡ (answer, s')
    asked buffer at s s' answer w e = subst (λ (n : ℕ). recv (n - at) s ≡ (answer, s')) w e

    -- A blank line at the end of the bytes ends the loop.
    blank-Ends :
        (buffer : Buffer) (size at : ℕ) (s : State)
        → Filled buffer size at s
        → EndsBlank (take at buffer)
        → Ends (some (ok (pos size, at, buffer), s))
    unfolding read_end
    blank-Ends buffer zero at s f (body, e) =
        absurd (
          omega (arith, ap length e, length-append body end_packet, length-take at buffer, f.moved))
    blank-Ends buffer (suc size) at s f blank = (
      pos at,
      resize at buffer,
      s,
      refl,
      rw (resize_le at buffer f.within) (
          subst (λ (k : ℕ). ReadEnd s₀ (pos k) (take at buffer) s) (length_at buffer at f.within)
            (packet (take at buffer) blank
              (omega (arith, length_at buffer at f.within, f.within, f.whole)) f.so_far f.quiet)),
    )

    -- One call, with its answer, where there is none; `later` is the rest of the loop.
    after_recv-Ends :
        (fuel : ℕ) (buffer : Buffer) (size at : ℕ) (s : State) (answer : Received) (s' : State)
        → Filled buffer size at s
        → ¬ EndsBlank (take at buffer)
        → recv (length buffer - at) s ≡ (answer, s')
        → ((bytes : Buffer)
            → 0 < length bytes
            → Filled (write_at at bytes buffer) (length bytes) (at + length bytes) s'
            → Ends (read_loop t fuel (write_at at bytes buffer) (length bytes) at s'))
        → Ends (after_recv t (read_loop t fuel) buffer at answer s')
    unfolding after_recv read_end
    after_recv-Ends fuel buffer size at s (received []) s' f not_blank e later =
        let (_, more, quiet) = recv_received (length buffer - at) s s' [] e in
        (
          pos 0,
          buffer,
          s',
          refl,
          closed buffer at s not_blank (asked buffer at s s' (received []) f.whole e)
              (more ∙ append-nil (consumed s) ∙ f.so_far) (quiet ∙ f.quiet),
        )
    after_recv-Ends fuel buffer size at s (received (b ∷ bytes)) s' f not_blank e later =
        later (b ∷ bytes) (omega arith)
          (Filled-received buffer (b ∷ bytes) size at s s' f e (omega arith))
    after_recv-Ends fuel buffer size at s (failed code) s' f not_blank e later =
        let (same, quiet) = recv_failed (length buffer - at) s s' code e in
        (
          negsuc code,
          buffer,
          s',
          refl,
          broken buffer at code s not_blank (asked buffer at s s' (failed code) f.whole e)
              (same ∙ f.so_far) (quiet ∙ f.quiet),
        )

    -- One round of the loop.
    read_round-Ends :
        (fuel : ℕ) (buffer : Buffer) (size at : ℕ) (s : State) (blank : Bool)
        → Filled buffer size at s
        → is_blank_line at buffer ≡ ok blank
        → ((bytes : Buffer) (s' : State)
            → 0 < length bytes
            → Filled (write_at at bytes buffer) (length bytes) (at + length bytes) s'
            → Ends (read_loop t fuel (write_at at bytes buffer) (length bytes) at s'))
        → Ends (read_round t (read_loop t fuel) buffer size at s)
    unfolding read_round
    read_round-Ends fuel buffer size at s true f e later =
        rw e (blank-Ends buffer size at s f ((is_blank_line_iff at buffer f.within).0 e))
    read_round-Ends fuel buffer size at s false f e later = rw e (
        after_recv-Ends fuel buffer size at s (recv (length buffer - at) s).0
          (recv (length buffer - at) s).1 f
          (λ blank. cc ((is_blank_line_iff at buffer f.within).1 blank)) refl
          (λ bytes. later bytes _))

    read_loop-Ends :
        (fuel : ℕ) (buffer : Buffer) (size offset : ℕ) (s : State)
        → length buffer - (offset + size) < fuel
        → Filled buffer size (offset + size) s
        → Ends (read_loop t fuel buffer size offset s)
    unfolding read_loop
    read_loop-Ends zero buffer size offset s h f = elim h [ ]
    read_loop-Ends (suc fuel) buffer size offset s h f =
        let (blank, e) = is_blank_line-returns (offset + size) buffer f.within in
        read_round-Ends fuel buffer size (offset + size) s blank f e (λ bytes s' some_bytes g.
          read_loop-Ends fuel (write_at (offset + size) bytes buffer) (length bytes) (offset + size)
            s' (omega (arith, f.whole, g.whole, g.within)) g)

  -- `Read` always returns: with the bytes that it consumed, if a blank line stands at their end
  -- after some call; with 0, if the stream ends or the buffer is full before; with the answer of a
  -- call that fails before.
  pub read-ReadEnd :
      (buffer : Buffer) (s : State)
      → (size : ℤ) × (left : Buffer) × (s' : State) × (read t buffer s ≡ some (ok (size, left), s'))
        × ReadEnd s size left s'
  unfolding read
  read-ReadEnd buffer s =
      let whole = length-resize buffer_size buffer in
      read_loop-Ends s (buffer_size + 2) (resize buffer_size buffer) 0 0 s (omega (arith, whole))
        (record {
          whole = whole;
          within = omega arith;
          moved = λ h. omega arith;
          so_far = sym (append-nil (consumed s));
          quiet = refl;
        })
