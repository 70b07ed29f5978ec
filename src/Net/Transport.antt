-- ===== src/Net/Transport.antt =====
-- What the program relies on of recv and send of <sys/socket.h>, and of SSL_read and SSL_write of
-- OpenSSL: a parameter of the functions of SocketHelper.h. `consumed` and `delivered` are the bytes
-- that the calls have handed over so far, in each direction.
use small_http_server.Base.{ℕ, ◌≤◌, ◌≡◌, ◌++◌, length, take}
use small_http_server.Text.{Buffer}

-- The answer of a call that reads: the bytes, none of them at the end of the stream, or a negative
-- number, -(n + 1) for `failed n`.
pub data Received : Type 0 where
  received : Buffer → Received
  failed : ℕ → Received

-- The answer of a call that writes: how many bytes it took, or a negative number.
pub data Sent : Type 0 where
  sent : ℕ → Sent
  failed : ℕ → Sent

pub record Transport : Type 1 where
  pub State : Type 0
  pub recv : ℕ → State → Received × State
  pub send : Buffer → State → Sent × State
  pub consumed : State → Buffer
  pub delivered : State → Buffer
  -- At most the bytes that were asked for are read, and they are the next of the stream.
  pub recv_received :
      (n : ℕ) (s s' : State) (bytes : Buffer)
      → recv n s ≡ (received bytes, s')
      → (length bytes ≤ n) × (consumed s' ≡ consumed s ++ bytes) × (delivered s' ≡ delivered s)
  pub recv_failed :
      (n : ℕ) (s s' : State) (code : ℕ)
      → recv n s ≡ (Received.failed code, s')
      → (consumed s' ≡ consumed s) × (delivered s' ≡ delivered s)
  -- A call that writes takes a first part of its bytes.
  pub send_sent :
      (bytes : Buffer) (s s' : State) (n : ℕ)
      → send bytes s ≡ (sent n, s')
      → (n ≤ length bytes)
        × (delivered s' ≡ delivered s ++ take n bytes)
        × (consumed s' ≡ consumed s)
  pub send_failed :
      (bytes : Buffer) (s s' : State) (code : ℕ)
      → send bytes s ≡ (Sent.failed code, s')
      → (delivered s' ≡ delivered s) × (consumed s' ≡ consumed s)
