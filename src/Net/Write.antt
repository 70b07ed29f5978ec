-- ===== src/Net/Write.antt =====
-- The template `Write` of SocketHelper.h.
pub mod Outcome
use small_http_server.Base.{
  ℕ, zero, suc, ◌+◌, ◌-◌, Bool, true, false, ◌&&◌, [], ◌∷◌, ◌++◌, none, ltb, length, take, drop,
  if◌then◌else◌,
}
use small_http_server.Base.Int.{ℤ, pos, negsuc, is_negative}
use small_http_server.Run.{Run, pure, act, continue, ◌>>=◌}
use small_http_server.Text.{Buffer}
use small_http_server.Net.Transport.{Transport, Sent, sent, failed}

module _ (t : Transport) where
  open t use {State, send}

  -- The test of the loop, `offset < buffer.size() && size > 0`, after a call that writes; `again`
  -- runs the rounds left. The pair is `size` and `offset` where the loop ends.
  unfoldable pub after_send : (ℕ → ℕ → Run State (ℤ × ℕ)) → Buffer → ℕ → Sent → Run State (ℤ × ℕ)
  after_send again buffer offset (sent n) =
      if ltb offset (length buffer) && ltb 0 n then again n offset else pure (pos n, offset)
  after_send again buffer offset (failed code) = pure (negsuc code, offset)

  unfoldable pub write_loop : ℕ → Buffer → ℕ → ℕ → Run State (ℤ × ℕ)
  unfolding after_send
  write_loop zero buffer size offset s = none
  write_loop (suc fuel) buffer size offset s =
      continue (act (send (drop (offset + size) buffer)) s)
        (after_send (write_loop fuel buffer) buffer (offset + size))

  unfoldable pub write_end : ℤ × ℕ → Run State ℤ
  write_end (size, offset) = if is_negative size then pure size else pure (pos offset)

  -- Every round but the last moves on by a byte at least.
  unfoldable pub write : Buffer → Run State ℤ
  unfolding write_end
  write buffer = write_loop (length buffer + 2) buffer 0 0 >>= write_end
