-- ===== src/Net/ServerSocket/Setup.antt =====
-- What the constructor of a server socket does.
use small_http_server.Base.{◌≡◌, inl, inr, Bool, true, false, ◌∷◌, some, Bool-cases, if◌then◌else◌}
use Prim.Native.Nat.{bit_or}
use small_http_server.Base.Int.{ℤ, is_minus_one, is_zero}
use small_http_server.Exceptions.{Result, ok, throw, net_exception}
use small_http_server.Text.{Buffer, str_eq}
use small_http_server.Net.System.{
  System, Trace, af_inet, af_inet6, socket, inet_pton, set_reuse, bind, get_flags, set_flags,
  listen,
}
use small_http_server.Net.ServerSocket.{
  ServerSocket, ip4, to_unsigned, flags_of, bind_listener, open_listener, create,
}

module _ (system : System) (address family : Buffer) (port : ℤ) (is_block is_secure : Bool)
    (trace : Trace) where
  abbrev pub fd : ℤ
  fd = system.answer trace socket

  abbrev pub address_call : Trace
  address_call =
      inet_pton (if str_eq family ip4 then af_inet else af_inet6) address ∷ socket ∷ trace

  abbrev pub bind_call : Trace
  bind_call = bind fd (to_unsigned 16 port) ∷ set_reuse fd ∷ address_call

  abbrev pub flag_calls : Trace
  flag_calls =
      if is_block
      then bind_call
      else set_flags fd
          (bit_or (flags_of system (system.answer bind_call (get_flags fd))) system.nonblock)
        ∷ get_flags fd
        ∷ bind_call

  -- What inet_pton and bind answer.
  abbrev pub address_answer : ℤ
  address_answer =
      system.answer (socket ∷ trace)
        (inet_pton (if str_eq family ip4 then af_inet else af_inet6) address)

  abbrev pub bind_answer : ℤ
  bind_answer = system.answer (set_reuse fd ∷ address_call) (bind fd (to_unsigned 16 port))

  -- How the constructor ends by the two answers, with the calls that it has made. It closes nothing
  -- when it throws.
  pub data Created : Result ServerSocket → Trace → Type 0 where
    bad_address :
        is_zero address_answer ≡ true
        → Created (throw (net_exception "Error convert ip address")) address_call
    bad_bind :
        is_zero address_answer ≡ false
        → is_minus_one bind_answer ≡ true
        → Created (throw (net_exception "BIND error")) bind_call
    listening :
        is_zero address_answer ≡ false
        → is_minus_one bind_answer ≡ false
        → Created (ok (record { socket_fd = fd; secure = is_secure })) (listen fd ∷ flag_calls)

  open_listener-listening :
      open_listener system fd is_block is_secure bind_call
      ≡ some (ok (record { socket_fd = fd; secure = is_secure }), listen fd ∷ flag_calls)
  unfolding open_listener
  open_listener-listening = elim (Bool-cases is_block) [ inl b ↦ rw b | inr b ↦ rw b ]

  -- The constructor after the address is converted.
  bind_listener-Created :
      is_zero address_answer ≡ false
      → (r : Result ServerSocket) × (after : Trace) × (bind_listener system fd port is_block
            is_secure address_call
          ≡ some (r, after))
        × Created r after
  unfolding bind_listener
  bind_listener-Created good = elim (Bool-cases (is_minus_one bind_answer)) [
    | inl h ↦ (throw (net_exception "BIND error"), bind_call, rw h, bad_bind good h)
    | inr h ↦ (ok _, listen fd ∷ flag_calls, rw (h, open_listener-listening), listening good h)
  ]

  -- Where inet_pton answers 0 the constructor throws behind it; where it does not and bind answers
  -- -1, it throws behind the bind; the socket that it has made is then left open. Where neither
  -- fails it returns, the socket listens, and is non-blocking unless it was asked to block.
  pub create-Created :
      (r : Result ServerSocket) × (after : Trace) × (create system address family port is_block
          is_secure trace
        ≡ some (r, after))
      × Created r after
  unfolding create
  create-Created = elim (Bool-cases (is_zero address_answer)) [
    | inl h ↦ (throw (net_exception "Error convert ip address"), address_call, rw h, bad_address h)
    | inr h ↦ let (r, after, e, c) = bind_listener-Created h in (r, after, rw (h, e), c)
  ]
