-- ===== src/Net/Socket.antt =====
-- The class Socket of Socket.h: what Worker.cpp uses of a connection.
use small_http_server.Base.{Bool, ◌≡◌, some}
use small_http_server.Base.Int.{ℤ}
use small_http_server.Exceptions.{ok}
use small_http_server.Run.{Run}
use small_http_server.Text.{Buffer}

-- `close` is the destructor. `delivered` is what has been sent so far.
pub record Socket : Type 1 where
  pub State : Type 0
  pub read_packet : Buffer → Run State (ℤ × Buffer)
  pub write_packet : Buffer → Run State ℤ
  pub set_timeout : State → State
  pub is_alive : State → Bool × State
  pub close : State → State
  pub delivered : State → Buffer
  -- Reading and writing always return, and reading sends nothing.
  pub read_returns :
      (buffer : Buffer) (s : State)
      → (size : ℤ) × (left : Buffer) × (s' : State) × (read_packet buffer s
          ≡ some (ok (size, left), s'))
        × (delivered s' ≡ delivered s)
  pub write_returns :
      (buffer : Buffer) (s : State)
      → (size : ℤ) × (s' : State) × (write_packet buffer s ≡ some (ok size, s'))
