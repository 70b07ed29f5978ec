-- ===== src/Net/ServerSocket.antt =====
-- ServerSocket.h and ServerSocket.cpp. The addresses and the timeouts are in the calls' arguments.
pub mod Setup
pub mod Class
pub mod Moves
use Prim.Native.Nat.{bit_and, bit_or}
use small_http_server.Base.{ℕ, suc, ◌+◌, ◌-◌, ◌%◌, ◌^◌, Bool, true, false, not, if◌then◌else◌}
use small_http_server.Base.Int.{ℤ, pos, negsuc, is_minus_one, is_zero, is_negative, minus_one}
use small_http_server.Exceptions.{net_exception, throw}
use small_http_server.Run.{Run, pure, lift, ◌>>=◌, ◌>>◌}
use small_http_server.Text.{Buffer, codes, str_eq}
use small_http_server.Net.System.{
  System, Trace, perform, Family, af_inet, af_inet6, socket, inet_pton, set_reuse, bind, get_flags,
  set_flags, listen, close,
}

pub record ServerSocket : Type 0 where
  pub socket_fd : ℤ
  pub secure : Bool

-- The default constructor, Get and IsSecure.
abbrev pub empty : ServerSocket
empty = record { socket_fd = minus_one; secure = false }

abbrev pub get : ServerSocket → ℤ
get s = s.socket_fd

abbrev pub is_secure : ServerSocket → Bool
is_secure s = s.secure

-- namespace ipFamily of Options.h
abbrev pub ip4 : Buffer
ip4 = codes "ip4"

abbrev pub ip6 : Buffer
ip6 = codes "ip6"

-- An int as the bits of an unsigned one with `2 ^ w` values, as in the argument of htons and in the
-- flags.
unfoldable pub to_unsigned : ℕ → ℤ → ℕ
to_unsigned w (pos n) = n % 2 ^ w
to_unsigned w (negsuc n) = 2 ^ w - suc (n % 2 ^ w)

module _ (system : System) where
  unfoldable pub flags_of : ℤ → ℕ
  unfolding to_unsigned
  flags_of flags = if is_minus_one flags then 0 else to_unsigned 32 flags

  unfoldable pub set_nonblock : ℤ → Run Trace ℤ
  unfolding flags_of
  set_nonblock fd = do
    flags ← perform system (get_flags fd)
    perform system (set_flags fd (bit_or (flags_of flags) system.nonblock))

  unfoldable pub set_block : ℤ → Run Trace ℤ
  unfolding flags_of
  set_block fd = do
    flags ← perform system (get_flags fd)
    perform system (set_flags fd (bit_and (flags_of flags) (2 ^ 32 - suc system.nonblock)))

  unfoldable pub set_reuse_socket : ℤ → Run Trace ℤ
  set_reuse_socket fd = perform system (set_reuse fd)

  -- The part of the constructor after the bind.
  unfoldable pub open_listener : ℤ → Bool → Bool → Run Trace ServerSocket
  unfolding set_nonblock
  open_listener fd is_block is_secure = do
    _ ← if is_block then pure (pos 0) else set_nonblock fd
    _ ← perform system (listen fd)
    pure (record { socket_fd = fd; secure = is_secure })

  unfoldable pub bind_listener : ℤ → ℤ → Bool → Bool → Run Trace ServerSocket
  unfolding set_reuse_socket open_listener to_unsigned
  bind_listener fd port is_block is_secure = do
    _ ← set_reuse_socket fd
    errb ← perform system (bind fd (to_unsigned 16 port))
    if is_minus_one errb
        then lift (throw (net_exception "BIND error"))
        else open_listener fd is_block is_secure

  unfoldable pub create : Buffer → Buffer → ℤ → Bool → Bool → Run Trace ServerSocket
  unfolding bind_listener
  create address family port is_block is_secure = do
    fd ← perform system socket
    let f = if str_eq family ip4 then af_inet else af_inet6
    r ← perform system (inet_pton f address)
    if is_zero r
        then lift (throw (net_exception "Error convert ip address"))
        else bind_listener fd port is_block is_secure

  unfoldable pub destroy : ServerSocket → Run Trace (Unit {0})
  destroy s =
      if is_negative s.socket_fd
      then pure tt
      else perform system (close s.socket_fd) >>= λ _. pure tt

-- The move constructor and the move assignment: the new owner, and what is left of the old one. The
-- assignment drops what its target held.
abbrev pub moved_from : ServerSocket
moved_from = record { socket_fd = minus_one; secure = false }

unfoldable pub move : ServerSocket → ServerSocket × ServerSocket
move t = (t, moved_from)

unfoldable pub move_assign : ServerSocket → ServerSocket → ServerSocket × ServerSocket
move_assign this t = (t, moved_from)
