-- ===== src/Net/Read/Buffers.antt =====
-- The buffer that `Read` fills.
use small_http_server.Base.{
  ℕ, ◌+◌, ◌-◌, ◌≤◌, ◌≡◌, sym, ap, ◌∙◌, ◌++◌, arith, length, take, drop, replicate, length-append,
  length-take, length-drop, length-replicate, append_assoc, take-append_length, take-append_le,
}
use small_http_server.Text.{Buffer}
use small_http_server.Net.Read.{resize, write_at}

pub length-resize : (n : ℕ) (b : Buffer) → length (resize n b) ≡ n
unfolding resize
length-resize n b = omega (
  arith,
  length-take n (b ++ replicate (n - length b) 0),
  length-append b (replicate (n - length b) 0),
  length-replicate {0} {A = ℕ} (n - length b) 0,
)

pub resize_le : (n : ℕ) (b : Buffer) → n ≤ length b → resize n b ≡ take n b
unfolding resize
resize_le n b h = take-append_le n b (replicate (n - length b) 0) h

-- Bytes written behind the first `offset` ones.
module _ (offset : ℕ) (bytes buffer : Buffer) (fits : offset + length bytes ≤ length buffer) where
  pub length-write_at : length (write_at offset bytes buffer) ≡ length buffer
  unfolding write_at
  length-write_at = omega (
    arith,
    length-append (take offset buffer) (bytes ++ drop (offset + length bytes) buffer),
    length-append bytes (drop (offset + length bytes) buffer),
    length-take offset buffer,
    length-drop (offset + length bytes) buffer,
  )

  pub take-write_at :
      take (offset + length bytes) (write_at offset bytes buffer) ≡ take offset buffer ++ bytes
  unfolding write_at
  take-write_at =
      let size : offset + length bytes ≡ length (take offset buffer ++ bytes) =
        omega (arith, length-append (take offset buffer) bytes, length-take offset buffer) in
      ap (take (offset + length bytes))
        (sym (append_assoc (take offset buffer) bytes (drop (offset + length bytes) buffer)))
      ∙ ap
          (λ (k : ℕ). take k ((take offset buffer ++ bytes) ++ drop (offset + length bytes) buffer))
          size
      ∙ take-append_length (take offset buffer ++ bytes) _
