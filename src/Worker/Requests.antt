-- ===== src/Worker/Requests.antt =====
-- How a worker takes the requests that ProcessGET does not answer.
use small_http_server.Base.{ℕ, suc, ◌+◌, ◌≡◌, ◌∙◌, Bool, true, false, [], Option, some}
use small_http_server.Base.Int.{ℤ, is_positive}
use small_http_server.Exceptions.{Exception, ok}
use small_http_server.Run.{continue}
use small_http_server.Text.{Buffer}
use small_http_server.Http.Packet.{Packet, is_keep_alive, is_get_method}
use small_http_server.Http.Parser.{parse}
use small_http_server.Http.Parser.Request.{Refused, parse_throw_iff}
use small_http_server.Net.Socket.{Socket}
use small_http_server.Worker.Serve.{answer, serve_request, died, worker_turn}

module _ (open_file : Buffer → Option Buffer) (cs : Socket) (directory : Buffer) where
  open cs use {State, read_packet, read_returns, is_alive, set_timeout, close, delivered}

  -- A request that has arrived: the connection is alive, and a read gives the buffer.
  pub record Arrived (s : State) (buffer : Buffer) (s' : State) : Type 0 where
    pub before : State
    pub size : ℤ
    pub alive : is_alive s ≡ (true, before)
    pub read_it : read_packet [] before ≡ some (ok (size, buffer), s')
    pub some_bytes : is_positive size ≡ true

  pub serve_request_arrived :
      (s : State) (buffer : Buffer) (s' : State)
      → Arrived s buffer s'
      → serve_request open_file cs directory s
        ≡ continue (some (parse buffer, s')) (answer open_file cs directory)
  unfolding serve_request
  serve_request_arrived s buffer s' a = rw (a.alive, a.read_it, a.some_bytes)

  arrived-delivered :
      (s : State) (buffer : Buffer) (s' : State)
      → (a : Arrived s buffer s') → delivered s' ≡ delivered a.before
  arrived-delivered s buffer s' a =
      let (size, left, t, e, d) = read_returns [] a.before in cc (e, d, a.read_it)

  -- A request that is read but is not a GET is not answered, and the connection goes on as its
  -- Connection field says.
  pub serve_request_other :
      (s : State) (buffer : Buffer) (s' : State) (packet : Packet) (is_ka : Bool)
      → Arrived s buffer s'
      → parse buffer ≡ ok packet
      → is_get_method packet ≡ ok false
      → is_keep_alive packet ≡ ok is_ka
      → serve_request open_file cs directory s ≡ some (ok (some is_ka), s')
  unfolding answer
  serve_request_other s buffer s' packet is_ka a p g k =
      serve_request_arrived s buffer s' a ∙ rw (p, k, g)

  -- A refused request ends the thread that reads it, while no stop is requested: the exception
  -- leaves the loops, and the connection is closed with nothing sent to it.
  pub worker_turn-Refused :
      (stop : ℕ → Bool) (fuel polls : ℕ) (s : State) (buffer : Buffer) (s' : State) (e : Exception)
      → stop polls ≡ false
      → stop (polls + 1) ≡ false
      → (a : Arrived (set_timeout s) buffer s') → Refused buffer e
      → (worker_turn open_file cs directory stop (suc fuel) polls (some s)
          ≡ some (record { ending = died e; closed = some (close s') }))
        × (delivered s' ≡ delivered a.before)
  unfolding worker_turn
  worker_turn-Refused stop fuel polls s buffer s' e go on a r = (
    rw (go, on, serve_request_arrived (set_timeout s) buffer s' a, (parse_throw_iff buffer e).1 r),
    arrived-delivered (set_timeout s) buffer s' a,
  )
