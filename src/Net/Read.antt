-- ===== src/Net/Read.antt =====
-- The template `Read` of SocketHelper.h.
pub mod Buffers
pub mod Outcome
pub mod Calls
use small_http_server.Base.{
  ℕ, zero, suc, ◌+◌, ◌-◌, Bool, true, false, [], ◌∷◌, ◌++◌, none, length, take, drop, replicate,
  if◌then◌else◌,
}
use small_http_server.Base.Int.{ℤ, pos, negsuc, is_not_positive}
use small_http_server.Exceptions.{Result}
use small_http_server.Run.{Run, pure, lift, act, ◌>>=◌}
use small_http_server.Text.{Buffer}
use small_http_server.Http.Parser.{is_blank_line}
use small_http_server.Net.Transport.{Transport, Received, received, failed}

-- std::string::resize, which cuts the text or fills it up with zero bytes.
unfoldable pub resize : ℕ → Buffer → Buffer
resize n buffer = take n (buffer ++ replicate (n - length buffer) 0)

-- The bytes that a call writes to `&buffer[offset]`.
unfoldable pub write_at : ℕ → Buffer → Buffer → Buffer
write_at offset bytes buffer = take offset buffer ++ (bytes ++ drop (offset + length bytes) buffer)

abbrev pub buffer_size : ℕ
buffer_size = 65535

-- The variables `size`, `offset` and `buffer` where the loop ends.
abbrev pub Ended : Type 0
Ended = ℤ × ℕ × Buffer

module _ (t : Transport) where
  open t use {State, recv}

  -- The test of the loop, `size > 0`, after a call that reads; `again` runs the rounds left.
  unfoldable pub after_recv :
      (Buffer → ℕ → ℕ → Run State Ended) → Buffer → ℕ → Received → Run State Ended
  unfolding write_at
  after_recv again buffer offset (received []) = pure (pos 0, offset, buffer)
  after_recv again buffer offset (received (b ∷ bytes)) =
      again (write_at offset (b ∷ bytes) buffer) (length (b ∷ bytes)) offset
  after_recv again buffer offset (failed code) = pure (negsuc code, offset, buffer)

  -- The body of the loop, after `offset += size`.
  unfoldable pub read_round : (Buffer → ℕ → ℕ → Run State Ended) → Buffer → ℕ → ℕ → Run State Ended
  unfolding after_recv
  read_round again buffer size offset = do
    blank ← lift (is_blank_line offset buffer)
    if blank
        then pure (pos size, offset, buffer)
        else act (recv (length buffer - offset)) >>= after_recv again buffer offset

  unfoldable pub read_loop : ℕ → Buffer → ℕ → ℕ → Run State Ended
  unfolding read_round
  read_loop zero buffer size offset s = none
  read_loop (suc fuel) buffer size offset s =
      read_round (read_loop fuel) buffer size (offset + size) s

  -- What is returned, with the buffer as it is left.
  unfoldable pub read_end : Ended → Run State (ℤ × Buffer)
  unfolding resize
  read_end (size, offset, buffer) =
      if is_not_positive size then pure (size, buffer) else pure (pos offset, resize offset buffer)

  -- Every round but the last adds a byte at least, so the buffer is full before the fuel is used.
  unfoldable pub read : Buffer → Run State (ℤ × Buffer)
  unfolding read_end
  read buffer = read_loop (buffer_size + 2) (resize buffer_size buffer) 0 0 >>= read_end
