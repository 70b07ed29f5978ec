-- ===== src/Net/ClientSocket/Class.antt =====
-- The class ClientSocket of ClientSocket.h, as Acceptor and the tests see it: an object owns the
-- descriptor that it is given, and its destructor closes it.
use small_http_server.Base.{
  ◌+◌, ◌≡◌, refl, Bool, true, false, inl, inr, Bool-cases, some, ◌∷◌, ◌∙◌, arith, if◌then◌else◌,
}
use small_http_server.Base.Int.{
  ℤ, pos, negsuc, is_minus_one, is_negative, minus_one, ℤ_eq, ℤ_eq_iff,
}
use small_http_server.Exceptions.{ok}
use small_http_server.Run.{Run, ◌>>=◌}
use small_http_server.Text.{Buffer}
use small_http_server.Net.System.{System, Trace, closes, connect, shutdown, close}
use small_http_server.Net.Transport.{Transport}
use small_http_server.Net.Read.{read}
use small_http_server.Net.Write.{write}
use small_http_server.Net.Connection.{reading_returns, writing_returns}
use small_http_server.Net.ServerSocket.{to_unsigned}
use small_http_server.Net.Server.Descriptors.{negative_other}
use small_http_server.Net.ClientSocket
use small_http_server.Net.ClientSocket.{ClientSocket, close_socket}

-- Data is moved on a transport, whose calls leave the descriptor open.
pub record ClientSocketClass (system : System) (t : Transport) : Type 1 where
  pub Object : Type 0
  pub create : ℤ → Object
  pub connect : Object → Buffer → ℤ → Run Trace Bool
  pub set_timeout : Object → Run Trace (Unit {0})
  pub read_packet : Object → Buffer → Run t.State (ℤ × Buffer)
  pub write_packet : Object → Buffer → Run t.State ℤ
  pub is_alive : Object → Run Trace Bool
  pub get : Object → ℤ
  pub close_socket : Object → Run Trace Object
  pub get-create : (fd : ℤ) → get (create fd) ≡ fd
  pub read_returns :
      (o : Object) (buffer : Buffer) (s : t.State)
      → (size : ℤ) × (left : Buffer) × (s' : t.State) × (read_packet o buffer s
          ≡ some (ok (size, left), s'))
        × (t.delivered s' ≡ t.delivered s)
  pub write_returns :
      (o : Object) (buffer : Buffer) (s : t.State)
      → (size : ℤ) × (s' : t.State) × (write_packet o buffer s ≡ some (ok size, s'))
  pub connect_closes :
      (o : Object) (ip : Buffer) (port fd : ℤ) (trace : Trace)
      → (connected : Bool) × (after : Trace) × (connect o ip port trace
          ≡ some (ok connected, after))
        × (closes fd after ≡ closes fd trace)
  pub close_socket_closes :
      (o : Object) (fd : ℤ) (trace : Trace)
      → is_negative fd ≡ false
      → (o' : Object) × (after : Trace) × (close_socket o trace ≡ some (ok o', after))
        × (closes fd after ≡ (if ℤ_eq (get o) fd then 1 else 0) + closes fd trace)
        × (is_negative (get o') ≡ true)

pub minus_one-negative : (c : ℤ) → is_minus_one c ≡ true → is_negative c ≡ true
minus_one-negative (pos n) h = cc
minus_one-negative (negsuc n) h = refl

module _ (system : System) where
  pub connect_to-closes :
      (o : ClientSocket) (ip : Buffer) (port fd : ℤ) (trace : Trace)
      → (connected : Bool) × (after : Trace) × (ClientSocket.connect_to system o ip port trace
          ≡ some (ok connected, after))
        × (closes fd after ≡ closes fd trace)
  unfolding ClientSocket.connect_to
  connect_to-closes o ip port fd trace =
      elim (Bool-cases
        (is_negative (system.answer trace (connect o.socket_fd ip (to_unsigned 16 port))))) [
          | inl failed ↦
              (false, connect o.socket_fd ip (to_unsigned 16 port) ∷ trace, rw failed refl, refl)
          | inr good ↦
              (true, connect o.socket_fd ip (to_unsigned 16 port) ∷ trace, rw good refl, refl)
        ]

  pub close_socket-closes :
      (o : ClientSocket) (fd : ℤ) (trace : Trace)
      → is_negative fd ≡ false
      → (o' : ClientSocket) × (after : Trace) × (close_socket system o trace ≡ some (ok o', after))
        × (closes fd after ≡ (if ℤ_eq o.socket_fd fd then 1 else 0) + closes fd trace)
        × (is_negative o'.socket_fd ≡ true)
  unfolding close_socket
  close_socket-closes o fd trace h = elim (Bool-cases (is_minus_one o.socket_fd)) [
    | inl closed ↦
        let negative = minus_one-negative o.socket_fd closed in
        (
          o,
          trace,
          rw closed refl,
          rw (negative_other o.socket_fd fd negative h) (omega arith),
          negative,
        )
    | inr open_one ↦ (
      record { socket_fd = minus_one },
      close o.socket_fd ∷ shutdown o.socket_fd ∷ trace,
      rw open_one refl,
      refl,
      refl,
    )
  ]

  module _ (t : Transport) where
    abbrev pub client_socket_class : ClientSocketClass system t
    client_socket_class = record {
      Object = ClientSocket;
      create = ClientSocket.create;
      connect = ClientSocket.connect_to system;
      set_timeout = ClientSocket.set_timeout system;
      read_packet = λ o. read t;
      write_packet = λ o. write t;
      is_alive = ClientSocket.is_alive system;
      get = ClientSocket.get;
      close_socket = close_socket system;
      get-create = λ fd. refl;
      read_returns = λ o. reading_returns t;
      write_returns = λ o. writing_returns t;
      connect_closes = connect_to-closes;
      close_socket_closes = close_socket-closes;
    }

  -- A socket that is made, connected and destroyed closes its descriptor once.
  pub connected_closes :
      (t : Transport) (class : ClientSocketClass system t) (ip : Buffer) (port fd : ℤ)
      (trace : Trace)
      → is_negative fd ≡ false
      → (o : class.Object) × (after : Trace) × ((class.connect (class.create fd) ip port >>= λ _.
              class.close_socket (class.create fd))
            trace
          ≡ some (ok o, after))
        × (closes fd after ≡ 1 + closes fd trace)
  connected_closes t class ip port fd trace h =
      let (connected, middle, e, c) = class.connect_closes (class.create fd) ip port fd trace in
      let (o, after, e', d, _) = class.close_socket_closes (class.create fd) fd middle h in
      let same : ℤ_eq (class.get (class.create fd)) fd ≡ true =
        (ℤ_eq_iff (class.get (class.create fd)) fd).1 (class.get-create fd) in
      (o, after, rw (e, e'), d ∙ rw (same, c))
