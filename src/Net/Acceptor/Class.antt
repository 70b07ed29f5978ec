-- ===== src/Net/Acceptor/Class.antt =====
-- The class Acceptor of SocketHelper.h, as ServerSocket and Server see it. An object is of one of two
-- kinds, by its constructor, and is called once for each connection; it is never copied or moved.
use small_http_server.Base.{◌≡◌, refl, false, Option, none, some, if◌then◌else◌}
use small_http_server.Base.Int.{ℤ, is_negative}
use small_http_server.Exceptions.{ok}
use small_http_server.Run.{Run}
use small_http_server.Net.System as Sys
use small_http_server.Net.System.{System, Trace, closes}
use small_http_server.Net.Acceptor.{Connection, client, Acceptor, apply}
use small_http_server.Net.Acceptor.Outcome.{IsGiven, apply-Quiet, apply-plain}

-- `call` is operator().
pub record AcceptorClass (system : System) : Type 1 where
  pub Object : Type 0
  pub create : ℤ → Object
  pub create_secure : ℤ → ℤ → Object
  pub call : Object → Run Trace (Option Connection)
  pub master : Object → ℤ
  pub master-create : (fd : ℤ) → master (create fd) ≡ fd
  pub master-create_secure : (fd context : ℤ) → master (create_secure fd context) ≡ fd
  pub call_gives :
      (a : Object) (trace : Trace)
      → (c : Option Connection) × (after : Trace) × (call a trace ≡ some (ok c, after))
        × IsGiven system (system.answer trace (Sys.accept (master a))) c
        × ((fd : ℤ) → closes fd after ≡ closes fd trace)
  pub call_plain :
      (fd : ℤ) (trace : Trace)
      → (after : Trace) × (call (create fd) trace
          ≡ some (
            ok (
                if is_negative (system.answer trace (Sys.accept fd))
                then none
                else some (client (record { socket_fd = system.answer trace (Sys.accept fd) }))),
            after,
          ))

-- The two constructors.
abbrev pub create : ℤ → Acceptor
create fd = record { master = fd; context = none }

abbrev pub create_secure : ℤ → ℤ → Acceptor
create_secure fd context = record { master = fd; context = some context }

module _ (system : System) where
  abbrev pub acceptor_class : AcceptorClass system
  acceptor_class = record {
    Object = Acceptor;
    create = create;
    create_secure = create_secure;
    call = apply system;
    master = λ a. a.master;
    master-create = λ fd. refl;
    master-create_secure = λ fd context. refl;
    call_gives = apply-Quiet system;
    call_plain = apply-plain system;
  }

-- A plain acceptor gives the client that accept names, for any implementation.
pub call-plain_client :
    (system : System) (class : AcceptorClass system) (fd : ℤ) (trace : Trace)
    → is_negative (system.answer trace (Sys.accept fd)) ≡ false
    → (after : Trace) × (class.call (class.create fd) trace
        ≡ some (
          ok (some (client (record { socket_fd = system.answer trace (Sys.accept fd) }))),
          after,
        ))
call-plain_client system class fd trace h =
    let (after, e) = class.call_plain fd trace in (after, rw h at e)
