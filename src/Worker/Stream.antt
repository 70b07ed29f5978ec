-- ===== src/Worker/Stream.antt =====
-- The inner loop on a connection, whose stream of bytes ends.
use small_http_server.Base.{
  ℕ, ◌+◌, ◌≤◌, ◌<◌, ◌≡◌, Bool, true, [], Option, some, arith, length, length-append, subst,
}
use small_http_server.Base.Int.{ℤ, is_positive}
use small_http_server.Exceptions.{Result, ok}
use small_http_server.Text.{Buffer}
use small_http_server.Net.Transport.{Transport}
use small_http_server.Net.Read.{read}
use small_http_server.Net.Read.Outcome.{ReadEnd, packet, closed, broken, read-ReadEnd}
use small_http_server.Net.Write.{write}
use small_http_server.Net.Connection.{connection}
use small_http_server.Net.Connection.Preserved.{read-After, write-After}
use small_http_server.Worker.Serve.{serve}
use small_http_server.Worker.Termination.{Finite, serve_returns}

-- A stream with so many bytes left; those that a call hands over are no longer left.
pub record FiniteStream (t : Transport) : Type 0 where
  pub left : t.State → ℕ
  pub recv_uses :
      (n : ℕ) (s : t.State)
      → left (t.recv n s).1 + length (t.consumed (t.recv n s).1) ≤ left s + length (t.consumed s)
  pub send_keeps : (bytes : Buffer) (s : t.State) → left (t.send bytes s).1 ≤ left s

module _ (t : Transport) (f : FiniteStream t) where
  open t use {State, recv, send, consumed}
  open f use {left, recv_uses, send_keeps}

  ReadEnd-uses :
      (s s' : State) (size : ℤ) (buffer : Buffer)
      → ReadEnd t s size buffer s'
      → is_positive size ≡ true
      → left s' + length (consumed s') ≤ left s + length (consumed s)
      → left s' < left s
  ReadEnd-uses s s' size buffer (packet _ b l c q) h k =
      ground (arith, c, length-append (consumed s) buffer)
  ReadEnd-uses s s' size buffer (closed _ at before b r c q) h k = cc
  ReadEnd-uses s s' size buffer (broken _ at code before b r c q) h k = cc

  pub read_uses :
      (s s' : State) (size : ℤ) (buffer : Buffer)
      → read t [] s ≡ some (ok (size, buffer), s')
      → is_positive size ≡ true
      → left s' < left s
  read_uses s s' size buffer e h =
      let (size', buffer', s'', e', end) = read-ReadEnd t [] s in
      let same_size : size ≡ size' = cc (e, e') in
      let same_state : s'' ≡ s' = cc (e, e') in
      let kept =
        read-After t (λ u. left u + length (consumed u) ≤ left s + length (consumed s))
          (λ n u p. omega (arith, p, recv_uses n u)) [] s (omega arith) (ok (size', buffer')) s''
          e' in
      subst (λ (u : State). left u < left s) same_state
        (ReadEnd-uses s s'' size' buffer' end (subst (λ (z : ℤ). is_positive z ≡ true) same_size h)
          kept)

  pub write_keeps :
      (message : Buffer) (s s' : State) (size : ℤ)
      → write t message s ≡ some (ok size, s')
      → left s' ≤ left s
  write_keeps message s s' size e =
      write-After t (λ u. left u ≤ left s) (λ bytes u p. omega (arith, p, send_keeps bytes u))
        message s (omega arith) (ok size) s' e

  module _ (set_timeout close : State → State) (is_alive : State → Bool × State)
      (alive_keeps : (s : State) → left (is_alive s).1 ≤ left s) where
    abbrev pub stream_finite : Finite (connection t set_timeout close is_alive)
    stream_finite = record {
      pending = left;
      read_uses = read_uses;
      write_keeps = write_keeps;
      alive_keeps = alive_keeps;
    }

    -- On a connection whose stream of bytes ends, read and written by `Read` and `Write`, the
    -- inner loop ends: a round for each byte that is left, and one more, are fuel enough, whatever
    -- the bytes are and however they are cut into calls.
    pub stream_serve-returns :
        (open_file : Buffer → Option Buffer) (directory : Buffer) (stop : ℕ → Bool) (fuel : ℕ)
        (is_ka : Bool) (polls : ℕ) (s : State)
        → left s < fuel
        → (r : Result ℕ × State) × (serve open_file
              (connection t set_timeout close is_alive)
              directory
              stop
              fuel
              is_ka
              polls
              s
            ≡ some r)
    stream_serve-returns open_file directory stop fuel is_ka polls s h =
        serve_returns open_file (connection t set_timeout close is_alive) directory stream_finite
          stop fuel is_ka polls s h
