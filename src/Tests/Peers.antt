-- ===== src/Tests/Peers.antt =====
-- A client, a network and an operating system that answer from a script.
use small_http_server.Base.{
  ℕ, ◌≤◌, ◌<◌, ◌≡◌, refl, subst, true, List, [], ◌∷◌, ◌++◌, some, arith, length, take, length-take,
  append-nil,
}
use small_http_server.Base.Int.{ℤ, pos, is_positive}
use small_http_server.Exceptions.{ok}
use small_http_server.Text.{Buffer}
use small_http_server.Net.Transport.{Transport, Received, received, Sent, sent}
use small_http_server.Net.Socket.{Socket}
use small_http_server.Net.System.{System}
use small_http_server.Worker.Termination.{Finite}

-- The requests that the client has still to send, and what it has been sent.
pub record Session : Type 0 where
  pub inbox : List Buffer
  pub outbox : Buffer

abbrev take_request : List Buffer → Buffer → (ℤ × Buffer) × List Buffer
take_request [] buffer = ((pos 0, buffer), [])
take_request (b ∷ bs) buffer = ((pos (length b), b), bs)

abbrev pub client : Socket
client = record {
  State = Session;
  read_packet = λ buffer s.
      let (r, rest) = take_request s.inbox buffer in some (ok r, record s { inbox = rest });
  write_packet =
      λ buffer s. some (ok (pos (length buffer)), record s { outbox = s.outbox ++ buffer });
  set_timeout = λ s. s;
  is_alive = λ s. (true, s);
  close = λ s. s;
  delivered = λ s. s.outbox;
  read_returns = λ buffer s. (_, _, _, refl, refl);
  write_returns = λ buffer s. (_, _, refl);
}

pub take_request-uses :
    (inbox rest : List Buffer) (size : ℤ) (left : Buffer)
    → take_request inbox [] ≡ ((size, left), rest)
    → is_positive size ≡ true
    → length rest < length inbox
take_request-uses [] rest size left e h = cc
take_request-uses (b ∷ bs) rest size left e h = ground arith

pub read_uses :
    (s s' : Session) (size : ℤ) (left : Buffer)
    → client.read_packet [] s ≡ some (ok (size, left), s')
    → is_positive size ≡ true
    → length s'.inbox < length s.inbox
read_uses s s' size left e h = take_request-uses s.inbox s'.inbox size left (cc e) h

pub write_keeps :
    (message : Buffer) (s s' : Session) (size : ℤ)
    → client.write_packet message s ≡ some (ok size, s')
    → length s'.inbox ≤ length s.inbox
write_keeps message s s' size e = ground arith

pub alive_keeps : (s : Session) → length (client.is_alive s).1.inbox ≤ length s.inbox
alive_keeps s = omega arith

abbrev pub client_finite : Finite client
client_finite = record {
  pending = λ s. length s.inbox;
  read_uses = read_uses;
  write_keeps = write_keeps;
  alive_keeps = alive_keeps;
}

-- A network that hands over the chunks of its list, one at each call, and takes a byte at a time.
pub record Wire : Type 0 where
  pub chunks : List Buffer
  pub got : Buffer
  pub out : Buffer

abbrev pub next_chunk : ℕ → List Buffer → Wire → Received × Wire
next_chunk n [] w = (Received.failed 10, w)
next_chunk n (c ∷ cs) w = (received (take n c), record w { chunks = cs; got = w.got ++ take n c })

pub next_chunk_received :
    (n : ℕ) (cs : List Buffer) (w w' : Wire) (bytes : Buffer)
    → next_chunk n cs w ≡ (received bytes, w')
    → (length bytes ≤ n) × (w'.got ≡ w.got ++ bytes) × (w'.out ≡ w.out)
next_chunk_received n [] w w' bytes e = cc
next_chunk_received n (c ∷ cs) w w' bytes e =
    let b : take n c ≡ bytes = cc in
    (subst (λ (x : Buffer). length x ≤ n) b (omega (arith, length-take n c)), cc, cc)

pub next_chunk_failed :
    (n : ℕ) (cs : List Buffer) (w w' : Wire) (code : ℕ)
    → next_chunk n cs w ≡ (Received.failed code, w')
    → (w'.got ≡ w.got) × (w'.out ≡ w.out)
next_chunk_failed n [] w w' code e = (cc, cc)
next_chunk_failed n (c ∷ cs) w w' code e = cc

abbrev take_byte : Buffer → Wire → Sent × Wire
take_byte [] w = (sent 0, w)
take_byte (b ∷ bs) w = (sent 1, record w { out = w.out ++ b ∷ [] })

pub take_byte_sent :
    (bytes : Buffer) (w w' : Wire) (n : ℕ)
    → take_byte bytes w ≡ (sent n, w')
    → (n ≤ length bytes) × (w'.out ≡ w.out ++ take n bytes) × (w'.got ≡ w.got)
take_byte_sent [] w w' n e =
    let z : 0 ≡ n = cc in
    let w_eq : w ≡ w' = cc in
    (
      omega arith,
      subst (λ (k : ℕ). w'.out ≡ w.out ++ take {A = ℕ} k []) z (cc (w_eq, append-nil w.out)),
      cc,
    )
take_byte_sent (b ∷ bs) w w' n e =
    let z : 1 ≡ n = cc in
    (omega arith, subst (λ (k : ℕ). w'.out ≡ w.out ++ take k (b ∷ bs)) z cc, cc)

pub take_byte_failed :
    (bytes : Buffer) (w w' : Wire) (code : ℕ)
    → take_byte bytes w ≡ (Sent.failed code, w')
    → (w'.out ≡ w.out) × (w'.got ≡ w.got)
take_byte_failed [] w w' code e = cc
take_byte_failed (b ∷ bs) w w' code e = cc

abbrev pub wire : Transport
wire = record {
  State = Wire;
  recv = λ n w. next_chunk n w.chunks w;
  send = take_byte;
  consumed = λ w. w.got;
  delivered = λ w. w.out;
  recv_received = λ n w w' bytes e. next_chunk_received n w.chunks w w' bytes e;
  recv_failed = λ n w w' code e. next_chunk_failed n w.chunks w w' code e;
  send_sent = take_byte_sent;
  send_failed = take_byte_failed;
}

-- A system that gives the same answer to each call, and reports no event.
abbrev pub answers : ℤ → System
answers r = record { answer = λ trace call. r; events = λ trace. some []; nonblock = 2048 }
