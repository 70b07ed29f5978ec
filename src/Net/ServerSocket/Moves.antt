-- ===== src/Net/ServerSocket/Moves.antt =====
-- Server sockets that are moved, as the vector of the class Server moves them where it grows.
use small_http_server.Base.{ℕ, zero, suc, ◌+◌, ◌≡◌, refl, ◌∙◌, false, some, arith, if◌then◌else◌}
use small_http_server.Base.Int.{ℤ, is_negative, ℤ_eq}
use small_http_server.Exceptions.{ok}
use small_http_server.Run.{Run, ◌>>=◌}
use small_http_server.Net.System.{System, Trace, closes}
use small_http_server.Net.Server.Descriptors.{negative_other}
use small_http_server.Net.ServerSocket
use small_http_server.Net.ServerSocket.Class.{ServerSocketClass, server_socket_class}

module _ (system : System) (class : ServerSocketClass system) where
  open class use {Object, destroy, get, move, moved_owns, left_owns_none, destroy_closes}

  -- An object that is moved `n` times and destroyed; what each move leaves is destroyed behind it.
  abbrev pub moved_times : ℕ → Object → Run Trace (Unit {0})
  moved_times zero s = destroy s
  moved_times (suc n) s = destroy (move s).1 >>= λ _. moved_times n (move s).0

  left-closes :
      (s : Object) (fd : ℤ) (trace : Trace)
      → is_negative fd ≡ false
      → (after : Trace) × (destroy (move s).1 trace ≡ some (ok tt, after))
        × (closes fd after ≡ closes fd trace)
  left-closes s fd trace h =
      let (after, e, c) = destroy_closes (move s).1 fd trace h in
      (after, e, omega (arith, rw (negative_other (get (move s).1) fd (left_owns_none s) h) at c))

  pub moved_times-closes :
      (n : ℕ) (s : Object) (fd : ℤ) (trace : Trace)
      → is_negative fd ≡ false
      → (after : Trace) × (moved_times n s trace ≡ some (ok tt, after))
        × (closes fd after ≡ (if ℤ_eq (get s) fd then 1 else 0) + closes fd trace)
  moved_times-closes zero s fd trace h = destroy_closes s fd trace h
  moved_times-closes (suc n) s fd trace h =
      let (middle, e, c) = left-closes s fd trace h in
      let (after, f, d) = moved_times-closes n (move s).0 fd middle h in
      (after, rw e f, d ∙ rw (moved_owns s, c) refl)

-- However often a server socket is moved, and what is left of it destroyed each time, its descriptor
-- is closed once in the end, and no other is closed.
pub moved_socket-closes :
    (system : System) (n : ℕ) (s : ServerSocket.ServerSocket) (fd : ℤ) (trace : Trace)
    → is_negative fd ≡ false
    → (after : Trace) × (moved_times system (server_socket_class system) n s trace
        ≡ some (ok tt, after))
      × (closes fd after ≡ (if ℤ_eq s.socket_fd fd then 1 else 0) + closes fd trace)
moved_socket-closes system n s fd trace h =
    moved_times-closes system (server_socket_class system) n s fd trace h
