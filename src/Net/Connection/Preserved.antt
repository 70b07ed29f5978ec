-- ===== src/Net/Connection/Preserved.antt =====
-- What the calls of a transport keep, Read and Write keep.
use small_http_server.Base.{
  ℕ, zero, suc, ◌+◌, ◌-◌, ◌≡◌, refl, Bool, true, false, [], ◌∷◌, Option, none, some, length, drop,
  Bool-cases, inl, inr, if◌then◌else◌, ◌&&◌, ltb, subst,
}
use small_http_server.Base.Int.{ℤ, pos, is_not_positive, is_negative}
use small_http_server.Exceptions.{Result, ok, throw}
use small_http_server.Run.{Run, continue, pure}
use small_http_server.Text.{Buffer}
use small_http_server.Http.Parser.{is_blank_line}
use small_http_server.Net.Transport.{Transport, Received, received, failed, Sent, sent}
use small_http_server.Net.Read.{
  Ended, after_recv, read_round, read_loop, read_end, read, resize, buffer_size,
}
use small_http_server.Net.Write.{after_send, write_loop, write_end, write}

module _ (t : Transport) (P : t.State → Type 0) where
  open t use {State, recv, send}

  abbrev pub After {ℓ} : {A : Type ℓ} → Option (Result A × State) → Type ℓ
  After {A = A} o = (a : Result A) (s : State) → o ≡ some (a, s) → P s

  done-After : {A : Type 0} (r : Result A) (s : State) → P s → After (some (r, s))
  done-After r s p b s' e = subst P (cc e) p

  -- Two ways to return from one state.
  if-After :
      {A : Type 0} (b : Bool) (x y : A) (s : State)
      → P s
      → After ((if b then pure {S = State} x else pure y) s)
  if-After true x y s p = done-After (ok x) s p
  if-After false x y s p = done-After (ok y) s p

  module _ (recv_keeps : (n : ℕ) (s : State) → P s → P (recv n s).1) where
    after_recv-After :
        (again : Buffer → ℕ → ℕ → Run State Ended) (buffer : Buffer) (offset : ℕ) (r : Received)
        (s : State)
        → P s
        → ((b : Buffer) (size : ℕ) → After (again b size offset s))
        → After (after_recv t again buffer offset r s)
    unfolding after_recv
    after_recv-After again buffer offset (received []) s p k = done-After _ s p
    after_recv-After again buffer offset (received (b ∷ bytes)) s p k = k _ _
    after_recv-After again buffer offset (failed code) s p k = done-After _ s p

    read_round-After :
        (again : Buffer → ℕ → ℕ → Run State Ended) (buffer : Buffer) (size offset : ℕ) (s : State)
        (blank : Result Bool)
        → is_blank_line offset buffer ≡ blank
        → P s
        → ((b : Buffer) (n : ℕ) (s' : State) → P s' → After (again b n offset s'))
        → After (read_round t again buffer size offset s)
    unfolding read_round
    read_round-After again buffer size offset s (throw x) e p k = rw e (done-After (throw x) s p)
    read_round-After again buffer size offset s (ok true) e p k = rw e (done-After _ s p)
    read_round-After again buffer size offset s (ok false) e p k = rw e (
        after_recv-After again buffer offset (recv (length buffer - offset) s).0
          (recv (length buffer - offset) s).1 (recv_keeps (length buffer - offset) s p)
          (λ b n. k b n _ (recv_keeps _ s p)))

    read_loop-After :
        (fuel : ℕ) (buffer : Buffer) (size offset : ℕ) (s : State)
        → P s
        → After (read_loop t fuel buffer size offset s)
    unfolding read_loop
    read_loop-After zero buffer size offset s p = λ a s' e. cc
    read_loop-After (suc fuel) buffer size offset s p =
        read_round-After (read_loop t fuel) buffer size (offset + size) s _ refl p
          (λ b n s' p'. read_loop-After fuel b n (offset + size) s' p')

    read_end-After : (o : Option (Result Ended × State)) → After o → After (continue o (read_end t))
    unfolding read_end
    read_end-After none h = λ a s e. cc
    read_end-After (some (throw x, s)) h = done-After (throw x) s (h (throw x) s refl)
    read_end-After (some (ok (size, offset, buffer), s)) h =
        if-After (is_not_positive size) (size, buffer) (pos offset, resize offset buffer) s
          (h _ s refl)

    pub read-After : (buffer : Buffer) (s : State) → P s → After (read t buffer s)
    unfolding read
    read-After buffer s p =
        read_end-After _ (read_loop-After (buffer_size + 2) (resize buffer_size buffer) 0 0 s p)

  module _ (send_keeps : (bytes : Buffer) (s : State) → P s → P (send bytes s).1) where
    after_send-After :
        (again : ℕ → ℕ → Run State (ℤ × ℕ)) (buffer : Buffer) (offset : ℕ) (r : Sent) (s : State)
        → P s
        → ((size : ℕ) → After (again size offset s))
        → After (after_send t again buffer offset r s)
    unfolding after_send
    after_send-After again buffer offset (sent n) s p k =
        elim (Bool-cases (ltb offset (length buffer) && ltb 0 n)) [
          | inl more ↦ rw more (k n)
          | inr last ↦ rw last (done-After (ok (pos n, offset)) s p)
        ]
    after_send-After again buffer offset (Sent.failed code) s p k = done-After _ s p

    write_loop-After :
        (fuel : ℕ) (buffer : Buffer) (size offset : ℕ) (s : State)
        → P s
        → After (write_loop t fuel buffer size offset s)
    unfolding write_loop
    write_loop-After zero buffer size offset s p = λ a s' e. cc
    write_loop-After (suc fuel) buffer size offset s p =
        let kept = send_keeps (drop (offset + size) buffer) s p in
        after_send-After (write_loop t fuel buffer) buffer (offset + size)
          (send (drop (offset + size) buffer) s).0 _ kept
          (λ n. write_loop-After fuel buffer n (offset + size) _ kept)

    write_end-After :
        (o : Option (Result (ℤ × ℕ) × State)) → After o → After (continue o (write_end t))
    unfolding write_end
    write_end-After none h = λ a s e. cc
    write_end-After (some (throw x, s)) h = done-After (throw x) s (h (throw x) s refl)
    write_end-After (some (ok (size, offset), s)) h =
        if-After (is_negative size) size (pos offset) s (h _ s refl)

    pub write-After : (buffer : Buffer) (s : State) → P s → After (write t buffer s)
    unfolding write
    write-After buffer s p = write_end-After _ (write_loop-After (length buffer + 2) buffer 0 0 s p)
