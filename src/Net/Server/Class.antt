-- ===== src/Net/Server/Class.antt =====
-- The class Server of Server.h, as main sees it: an object owns the sockets that are added to it, and
-- its destructor closes them.
use small_http_server.Base.{
  ℕ, ◌+◌, ◌≡◌, refl, sym, ap, subst, ◌∙◌, Bool, true, false, inl, inr, Bool-cases, List, [], ◌∷◌,
  ◌++◌, Option, none, some,
}
use small_http_server.Base.Int.{ℤ, is_negative, is_minus_one, is_zero}
use small_http_server.Exceptions.{Result, ok, throw}
use small_http_server.Run.{Run, continue}
use small_http_server.Net.System.{
  System, Trace, closes, epoll_create, epoll_add, ctx_new, ctx_use_certificate, ctx_use_private_key,
}
use small_http_server.Net.ServerSocket.{ServerSocket, move}
use small_http_server.Net.TlsContext
use small_http_server.Net.TlsContext.{TlsContext}
use small_http_server.Net.Acceptor.{Connection}
use small_http_server.Net.Server.{
  Server, create, create_epoll, destroy, add_socket, add_descriptor, wait_loop,
}
use small_http_server.Net.Server.Descriptors.{holders, destroy-closes}

-- `wait_clients` has the answers of `stop_requested`, fuel, and the calls so far. `add_socket` gives
-- the server and what is left of the socket. `sockets` is what an object owns.
pub record ServerClass (system : System) : Type 1 where
  pub Object : Type 0
  pub create : Run Trace Object
  pub destroy : Object → Run Trace (Unit {0})
  pub wait_clients : (ℕ → Bool) → Object → ℕ → ℕ → Run Trace (Option Connection)
  pub add_socket : Object → ServerSocket → Run Trace (Object × ServerSocket)
  pub sockets : Object → List ServerSocket
  pub create_owns :
      (o : Object) (trace after : Trace)
      → create trace ≡ some (ok o, after)
      → (sockets o ≡ []) × ((fd : ℤ) → closes fd after ≡ closes fd trace)
  pub add_socket_owns :
      (o next : Object) (s left : ServerSocket) (trace after : Trace)
      → add_socket o s trace ≡ some (ok (next, left), after)
      → (sockets next ≡ sockets o ++ s ∷ [])
        × (is_negative left.socket_fd ≡ true)
        × ((fd : ℤ) → closes fd after ≡ closes fd trace)
  pub destroy_closes :
      (o : Object) (fd : ℤ) (trace : Trace)
      → is_negative fd ≡ false
      → (after : Trace) × (destroy o trace ≡ some (ok tt, after))
        × (closes fd after ≡ holders fd (sockets o) + closes fd trace)

module _ (system : System) where
  abbrev pub Opens : {A : Type 0} → (A → Type 0) → Trace → Option (Result A × Trace) → Type 0
  Opens {A} P trace o =
      (a : A) (after : Trace)
      → o ≡ some (ok a, after)
      → P a × ((fd : ℤ) → closes fd after ≡ closes fd trace)

  done-Opens :
      {A : Type 0} (P : A → Type 0) (trace : Trace) (a : A) (after : Trace)
      → P a
      → ((fd : ℤ) → closes fd after ≡ closes fd trace)
      → Opens P trace (some (ok a, after))
  done-Opens P trace a after p c b later e =
      let same : a ≡ b = cc e in
      let ends : after ≡ later = cc e in (subst P same p, λ fd. ap (closes fd) (sym ends) ∙ c fd)

  abbrev pub Made : TlsContext → Type 0
  Made c = Unit

  set_up-Opens : (ctx : ℤ) (trace : Trace) → Opens Made trace (TlsContext.set_up system ctx trace)
  unfolding TlsContext.set_up TlsContext.load_certificate
  set_up-Opens ctx trace =
      elim (Bool-cases (is_zero (system.answer trace (ctx_use_certificate ctx)))) [
        | inl missing ↦ rw missing (done-Opens Made trace _ _ tt (λ fd. refl))
        | inr found ↦
            elim (Bool-cases (
              is_zero
                (system.answer (ctx_use_certificate ctx ∷ trace) (ctx_use_private_key ctx)))) [
                  | inl no_key ↦ rw (found, no_key) (done-Opens Made trace _ _ tt (λ fd. refl))
                  | inr key ↦ rw (found, key) (done-Opens Made trace _ _ tt (λ fd. refl))
                ]
      ]

  context-Opens : (trace : Trace) → Opens Made trace (TlsContext.create system true trace)
  unfolding TlsContext.create
  context-Opens trace = elim (Bool-cases (is_zero (system.answer trace (ctx_new true)))) [
    | inl failed ↦ rw failed (done-Opens Made trace _ _ tt (λ fd. refl))
    | inr made ↦ rw made (set_up-Opens (system.answer trace (ctx_new true)) (ctx_new true ∷ trace))
  ]

  abbrev pub IsEmpty : Server → Type 0
  IsEmpty s = s.server_sockets ≡ []

  create_epoll-Opens :
      (context : TlsContext) (trace : Trace)
      → Opens IsEmpty trace (create_epoll system context trace)
  unfolding create_epoll TlsContext.destroy
  create_epoll-Opens context trace =
      elim (Bool-cases (is_minus_one (system.answer trace epoll_create))) [
        | inl failed ↦ rw failed (λ s after e. cc)
        | inr made ↦ rw made (done-Opens IsEmpty trace _ _ refl (λ fd. refl))
      ]

  then-Opens :
      (trace : Trace) (o : Option (Result TlsContext × Trace))
      → Opens Made trace o
      → Opens IsEmpty trace (continue o (create_epoll system))
  then-Opens trace none h s after e = cc
  then-Opens trace (some (throw x, t)) h s after e = cc
  then-Opens trace (some (ok c, t)) h s after e =
      let (empty, quiet) = create_epoll-Opens c t s after e in
      (empty, λ fd. quiet fd ∙ (h c t refl).1 fd)

  pub create-Opens : (trace : Trace) → Opens IsEmpty trace (create system trace)
  unfolding create
  create-Opens trace = then-Opens trace (TlsContext.create system true trace) (context-Opens trace)

  pub add_socket-Opens :
      (o : Server) (s : ServerSocket) (trace : Trace)
      → Opens
          (λ (r : Server × ServerSocket).
            (r.0.server_sockets ≡ o.server_sockets ++ s ∷ []) × (is_negative r.1.socket_fd ≡ true))
          trace
          (add_socket system o s trace)
  unfolding add_socket add_descriptor move
  add_socket-Opens o s trace =
      elim (Bool-cases (is_minus_one (system.answer trace (epoll_add o.epoll s.socket_fd)))) [
        | inl failed ↦ rw failed (λ r after e. cc)
        | inr added ↦ rw added (
            done-Opens
              (λ (r : Server × ServerSocket).
                (r.0.server_sockets ≡ o.server_sockets ++ s ∷ [])
                × (is_negative r.1.socket_fd ≡ true))
              trace _ _ (refl, refl) (λ fd. refl))
      ]

  abbrev pub server_class : ServerClass system
  server_class = record {
    Object = Server;
    create = create system;
    destroy = destroy system;
    wait_clients = wait_loop system;
    add_socket = add_socket system;
    sockets = λ s. s.server_sockets;
    create_owns = λ o trace after e. create-Opens trace o after e;
    add_socket_owns = λ o next s left trace after e.
        let ((owned, given), quiet) = add_socket-Opens o s trace (next, left) after e in
        (owned, given, quiet);
    destroy_closes = destroy-closes system;
  }
