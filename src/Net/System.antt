-- ===== src/Net/System.antt =====
-- The calls of the operating system and of OpenSSL that set sockets up and take them down: a
-- parameter of the functions that make them. A program's state is the trace of its calls, newest
-- first, and the answer to a call may depend on all of them.
use small_http_server.Base.{ℕ, ◌+◌, Bool, List, [], ◌∷◌, if◌then◌else◌, Option, some}
use small_http_server.Base.Int.{ℤ, ℤ_eq}
use small_http_server.Exceptions.{ok}
use small_http_server.Run.{Run}
use small_http_server.Text.{Buffer}

pub data Family : Type 0 where
  af_inet af_inet6 : Family

-- A descriptor is an int. An SSL object is the address that SSL_new gives, null being 0.
pub data Call : Type 0 where
  socket : Call
  inet_pton : Family → Buffer → Call
  set_reuse : ℤ → Call
  bind : ℤ → ℕ → Call
  get_flags : ℤ → Call
  set_flags : ℤ → ℕ → Call
  listen : ℤ → Call
  accept : ℤ → Call
  connect : ℤ → Buffer → ℕ → Call
  set_receive_timeout set_send_timeout : ℤ → ℕ → Call
  select : ℤ → ℕ → Call
  shutdown : ℤ → Call
  close : ℤ → Call
  epoll_create : Call
  epoll_add epoll_delete : ℤ → ℤ → Call
  epoll_wait : ℤ → ℕ → Call
  ssl_new : ℤ → Call
  ssl_set_host : ℤ → Buffer → Call
  ssl_connect : ℤ → Call
  ssl_peer_certificate : ℤ → Call
  x509_free : ℤ → Call
  ssl_set_fd : ℤ → ℤ → Call
  ssl_accept : ℤ → Call
  ssl_shutdown : ℤ → Call
  ssl_free : ℤ → Call
  ctx_new : Bool → Call
  ctx_use_certificate ctx_use_private_key : ℤ → Call
  ctx_free : ℤ → Call

abbrev pub Trace : Type 0
Trace = List Call

-- How many of a trace's calls close a descriptor.
abbrev pub closes : ℤ → Trace → ℕ
closes fd [] = 0
closes fd (close c ∷ trace) = (if ℤ_eq c fd then 1 else 0) + closes fd trace
closes fd (_ ∷ trace) = closes fd trace

-- The calls that free an SSL object.
abbrev pub ssl_frees : ℤ → Trace → ℕ
ssl_frees ssl [] = 0
ssl_frees ssl (ssl_free c ∷ trace) = (if ℤ_eq c ssl then 1 else 0) + ssl_frees ssl trace
ssl_frees ssl (_ ∷ trace) = ssl_frees ssl trace

-- `events` gives the descriptors that epoll_wait reports; `none` is its failure. `nonblock` is the
-- flag O_NONBLOCK.
pub record System : Type 0 where
  pub answer : Trace → Call → ℤ
  pub events : Trace → Option (List ℤ)
  pub nonblock : ℕ

module _ (system : System) where
  abbrev pub perform : Call → Run Trace ℤ
  perform call trace = some (ok (system.answer trace call), call ∷ trace)

  abbrev pub wait_events : ℤ → ℕ → Run Trace (Option (List ℤ))
  wait_events epoll limit trace = some (ok (system.events trace), epoll_wait epoll limit ∷ trace)
