-- ===== src/Net/Write/Outcome.antt =====
-- What `Write` returns, and what it has then delivered.
use native.Mathlib.Decide.{dec_lt}
use small_http_server.Base.{
  ℕ, zero, suc, ◌+◌, ◌-◌, ◌≤◌, ◌<◌, ◌≡◌, refl, sym, ap, subst, ◌∙◌, inl, inr, false, ◌&&◌, ◌++◌,
  Option, some, arith, ltb, Bool-cases, length, take, drop, length-drop, append_assoc, append-nil,
  take-drop_add, take_all,
}
use small_http_server.Base.Int.{ℤ, pos, negsuc}
use small_http_server.Exceptions.{Result, ok}
use small_http_server.Run.{continue}
use small_http_server.Text.{Buffer}
use small_http_server.Net.Transport.{Transport, Sent, sent, failed}
use small_http_server.Net.Write.{write_loop, write_end, after_send, write}

module _ (t : Transport) where
  open t use {State, send, delivered, send_sent, send_failed}

  -- How a call of `Write` ends, from state `s` with the text `buffer`.
  pub data WriteEnd (buffer : Buffer) (s : State) : ℤ → State → Type 0 where
    -- All of the text is delivered, and its length is returned.
    complete :
        {s' : State}
        → delivered s' ≡ delivered s ++ buffer
        → WriteEnd buffer s (pos (length buffer)) s'
    -- A call that took nothing ended the loop: the number of bytes delivered is returned.
    stalled :
        {s' : State} (k : ℕ) (before : State)
        → k < length buffer
        → send (drop k buffer) before ≡ (sent 0, s')
        → delivered s' ≡ delivered s ++ take k buffer
        → WriteEnd buffer s (pos k) s'
    -- A call failed: its answer is returned, whatever has been delivered before.
    broken :
        {s' : State} (k code : ℕ) (before : State)
        → k ≤ length buffer
        → send (drop k buffer) before ≡ (Sent.failed code, s')
        → delivered s' ≡ delivered s ++ take k buffer
        → WriteEnd buffer s (negsuc code) s'

  module _ (buffer : Buffer) (s₀ : State) where
    abbrev Ends : Option (Result (ℤ × ℕ) × State) → Type 0
    Ends r =
        (size : ℤ) × (s' : State) × (continue r (write_end t) ≡ some (ok size, s'))
        × WriteEnd buffer s₀ size s'

    -- The loop's state before a call that writes from `at` on.
    record Progress (at : ℕ) (s : State) : Type 0 where
      within : at ≤ length buffer
      so_far : delivered s ≡ delivered s₀ ++ take at buffer

    Progress-sent :
        (at n : ℕ) (s s' : State)
        → Progress at s
        → send (drop at buffer) s ≡ (sent n, s')
        → Progress (at + n) s'
    Progress-sent at n s s' p e =
        let (bound, more, _) = send_sent (drop at buffer) s s' n e in
        record {
          within = omega (arith, p.within, bound, length-drop at buffer);
          so_far =
              more
              ∙ ap (λ (b : Buffer). b ++ take n (drop at buffer)) p.so_far
              ∙ append_assoc (delivered s₀) (take at buffer) (take n (drop at buffer))
              ∙ ap (◌++◌ (delivered s₀)) (take-drop_add at n buffer);
        }

    -- The loop ends after a call that took `n` bytes.
    sent_last :
        (at n : ℕ) (s s' : State)
        → Progress at s
        → send (drop at buffer) s ≡ (sent n, s')
        → (ltb at (length buffer) && ltb 0 n) ≡ false
        → WriteEnd buffer s₀ (pos at) s'
    sent_last at n s s' p e stop =
        let q = Progress-sent at n s s' p e in
        elim (dec_lt at (length buffer)) [
          | yes more ↦
              let nothing : n ≡ 0 = ground arith in
              stalled at s more (e ∙ ap (λ (k : ℕ). (sent k, s')) nothing)
                (q.so_far ∙ ap (λ (k : ℕ). delivered s₀ ++ take k buffer) (omega (arith, nothing)))
          | no done ↦
              subst (λ (k : ℕ). WriteEnd buffer s₀ (pos k) s') (omega (arith, p.within))
                (complete
                  (q.so_far ∙ ap (◌++◌ (delivered s₀)) (take_all (at + n) buffer (omega arith))))
        ]

    -- One call, with the answer that it gives; `later` is the rest of the loop.
    after_send-Ends :
        (fuel at : ℕ) (s : State) (answer : Sent) (s' : State)
        → Progress at s
        → send (drop at buffer) s ≡ (answer, s')
        → ((n : ℕ)
            → at < length buffer
            → 0 < n
            → Progress (at + n) s'
            → Ends (write_loop t fuel buffer n at s'))
        → Ends (after_send t (write_loop t fuel buffer) buffer at answer s')
    unfolding after_send write_end
    after_send-Ends fuel at s (sent n) s' p e later =
        elim (Bool-cases (ltb at (length buffer) && ltb 0 n)) [
          | inl more ↦ rw more (later n (ground arith) (ground arith) (Progress-sent at n s s' p e))
          | inr stop ↦ rw stop (pos at, s', refl, sent_last at n s s' p e stop)
        ]
    after_send-Ends fuel at s (failed code) s' p e later = (
      negsuc code,
      s',
      refl,
      broken at code s p.within e ((send_failed (drop at buffer) s s' code e).0 ∙ p.so_far),
    )

    write_loop-Ends :
        (fuel size offset : ℕ) (s : State)
        → length buffer - (offset + size) < fuel
        → Progress (offset + size) s
        → Ends (write_loop t fuel buffer size offset s)
    unfolding write_loop
    write_loop-Ends zero size offset s h p = elim h [ ]
    write_loop-Ends (suc fuel) size offset s h p =
        after_send-Ends fuel (offset + size) s (send (drop (offset + size) buffer) s).0
          (send (drop (offset + size) buffer) s).1 p refl
          λ n more some_sent q. write_loop-Ends fuel n (offset + size) _ (omega arith) q

  -- `Write` always returns. It returns the text's length only where all of it is delivered, a smaller
  -- number when a call takes nothing, and the answer of a call that fails, which may be the one
  -- more call that follows a full delivery; each time a first part of the text is delivered, as
  -- many bytes as the number tells where it is not negative, and nothing else.
  pub write-WriteEnd :
      (buffer : Buffer) (s : State)
      → (size : ℤ) × (s' : State) × (write t buffer s ≡ some (ok size, s'))
        × WriteEnd buffer s size s'
  unfolding write
  write-WriteEnd buffer s =
      write_loop-Ends buffer s (length buffer + 2) 0 0 s (omega arith)
        (record { within = omega arith; so_far = sym (append-nil (delivered s)) })
