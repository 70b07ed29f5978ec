-- ===== src/Net/ServerSocket/Class.antt =====
-- The class ServerSocket of ServerSocket.h, as those who hold its objects see it: an object owns at
-- most one descriptor, a move hands it over, and the destructor closes it.
use small_http_server.Base.{◌+◌, ◌≡◌, refl, Bool, true, false, Option, some, if◌then◌else◌}
use small_http_server.Base.Int.{ℤ, is_negative, ℤ_eq}
use small_http_server.Exceptions.{ok}
use small_http_server.Run.{Run}
use small_http_server.Text.{Buffer}
use small_http_server.Net.System.{System, Trace, closes}
use small_http_server.Net.Acceptor.{Acceptor, Connection}
use small_http_server.Net.ServerSocket
use small_http_server.Net.Server.{accept_with}
use small_http_server.Net.Server.Descriptors.{destroy_socket-closes}

-- Each operation that moves gives the new owner and what is left of the old one.
pub record ServerSocketClass (system : System) : Type 1 where
  pub Object : Type 0
  pub empty : Object
  pub create : Buffer → Buffer → ℤ → Bool → Bool → Run Trace Object
  pub destroy : Object → Run Trace (Unit {0})
  pub accept : Acceptor → Run Trace (Option Connection)
  pub get : Object → ℤ
  pub is_secure : Object → Bool
  pub move_assign : Object → Object → Object × Object
  pub move : Object → Object × Object
  pub empty_owns_none : is_negative (get empty) ≡ true
  pub moved_owns : (s : Object) → get (move s).0 ≡ get s
  pub left_owns_none : (s : Object) → is_negative (get (move s).1) ≡ true
  pub assigned_owns : (s t : Object) → get (move_assign s t).0 ≡ get t
  pub assigned_owns_none : (s t : Object) → is_negative (get (move_assign s t).1) ≡ true
  pub destroy_closes :
      (s : Object) (fd : ℤ) (trace : Trace)
      → is_negative fd ≡ false
      → (after : Trace) × (destroy s trace ≡ some (ok tt, after))
        × (closes fd after ≡ (if ℤ_eq (get s) fd then 1 else 0) + closes fd trace)

pub get-move :
    (s : ServerSocket.ServerSocket) → ServerSocket.get (ServerSocket.move s).0 ≡ ServerSocket.get s
unfolding ServerSocket.move
get-move s = refl

pub get-move_left :
    (s : ServerSocket.ServerSocket) → is_negative (ServerSocket.get (ServerSocket.move s).1) ≡ true
unfolding ServerSocket.move
get-move_left s = refl

pub get-move_assign :
    (s t : ServerSocket.ServerSocket)
    → ServerSocket.get (ServerSocket.move_assign s t).0 ≡ ServerSocket.get t
unfolding ServerSocket.move_assign
get-move_assign s t = refl

pub get-move_assign_left :
    (s t : ServerSocket.ServerSocket)
    → is_negative (ServerSocket.get (ServerSocket.move_assign s t).1) ≡ true
unfolding ServerSocket.move_assign
get-move_assign_left s t = refl

module _ (system : System) where
  abbrev pub server_socket_class : ServerSocketClass system
  server_socket_class = record {
    Object = ServerSocket.ServerSocket;
    empty = ServerSocket.empty;
    create = ServerSocket.create system;
    destroy = ServerSocket.destroy system;
    accept = accept_with system;
    get = ServerSocket.get;
    is_secure = ServerSocket.is_secure;
    move_assign = ServerSocket.move_assign;
    move = ServerSocket.move;
    empty_owns_none = refl;
    moved_owns = get-move;
    left_owns_none = get-move_left;
    assigned_owns = get-move_assign;
    assigned_owns_none = get-move_assign_left;
    destroy_closes = destroy_socket-closes system;
  }
