-- ===== src/Net/TlsContext/Class.antt =====
-- The class TLSContext of TLSContext.h, as Server and TLSSocket see it: an object holds what
-- SSL_CTX_new gave, whether or not its certificate could be loaded, and its destructor frees it.
use small_http_server.Base.{◌+◌, ◌≤◌, ◌≡◌, refl, Bool, true, false, some, ◌∷◌, arith, if◌then◌else◌}
use small_http_server.Base.Int.{ℤ, is_zero, ℤ_eq, ℤ_eq_iff}
use small_http_server.Exceptions.{ok}
use small_http_server.Run.{Run, pure, ◌>>=◌}
use small_http_server.Net.System.{System, Trace, perform, ctx_new, ctx_use_certificate, ctx_free}
use small_http_server.Net.TlsContext
use small_http_server.Net.TlsContext.{TlsContext, set_up, create, destroy, load_certificate}
use small_http_server.Net.TlsContext.Ownership.{frees}

-- No constructor copies an object.
pub record TlsContextClass (system : System) : Type 1 where
  pub Object : Type 0
  pub create : Bool → Run Trace Object
  pub destroy : Object → Run Trace (Unit {0})
  pub get : Object → ℤ
  pub create_holds :
      (is_server : Bool) (trace : Trace)
      → (c : Object) × (after : Trace) × (create is_server trace ≡ some (ok c, after))
        × (get c ≡ system.answer trace (ctx_new is_server))
  pub destroy_frees :
      (c : Object) (ctx : ℤ) (trace : Trace)
      → (after : Trace) × (destroy c trace ≡ some (ok tt, after))
        × (frees ctx after ≡ (if ℤ_eq (get c) ctx then 1 else 0) + frees ctx trace)

module _ (system : System) where
  -- A computation returns a value with a property.
  abbrev Returns : {A : Type 0} → (A → Type 0) → Run Trace A → Trace → Type 0
  Returns {A} P m trace = (a : A) × (after : Trace) × (m trace ≡ some (ok a, after)) × P a

  if-Returns :
      {A : Type 0} (P : A → Type 0) (b : Bool) (m n : Run Trace A) (trace : Trace)
      → Returns P m trace
      → Returns P n trace
      → Returns P (if b then m else n) trace
  if-Returns P true m n trace h k = h
  if-Returns P false m n trace h k = k

  abbrev Any : Bool → Type 0
  Any b = Unit

  load_certificate-Returns :
      (ctx : ℤ) (trace : Trace) → Returns Any (load_certificate system ctx) trace
  unfolding load_certificate
  load_certificate-Returns ctx trace =
      if-Returns Any (is_zero (system.answer trace (ctx_use_certificate ctx))) _ _
        (ctx_use_certificate ctx ∷ trace) (_, _, refl, tt) (_, _, refl, tt)

  abbrev Holds : ℤ → TlsContext → Type 0
  Holds ctx c = c.ctx ≡ ctx

  set_up-Returns : (ctx : ℤ) (trace : Trace) → Returns (Holds ctx) (set_up system ctx) trace
  unfolding set_up
  set_up-Returns ctx trace =
      let (loaded, middle, e, any) = load_certificate-Returns ctx trace in
      let (c, after, e', holds) =
        if-Returns (Holds ctx) loaded (pure (record { ctx = ctx }))
          (perform system (ctx_free ctx) >>= λ _. pure (record { ctx = ctx })) middle
          (_, _, refl, refl) (_, _, refl, refl) in
      (c, after, rw (e, e') refl, holds)

  pub create-Returns :
      (is_server : Bool) (trace : Trace)
      → Returns (Holds (system.answer trace (ctx_new is_server))) (create system is_server) trace
  unfolding create
  create-Returns is_server trace =
      let ctx = system.answer trace (ctx_new is_server) in
      if-Returns (Holds ctx) (is_zero ctx) (pure (record { ctx = ctx })) (set_up system ctx)
        (ctx_new is_server ∷ trace) (_, _, refl, refl) (set_up-Returns ctx _)

  pub destroy-frees :
      (c : TlsContext) (ctx : ℤ) (trace : Trace)
      → (after : Trace) × (destroy system c trace ≡ some (ok tt, after))
        × (frees ctx after ≡ (if ℤ_eq c.ctx ctx then 1 else 0) + frees ctx trace)
  unfolding destroy
  destroy-frees c ctx trace = (_, refl, refl)

  abbrev pub tls_context_class : TlsContextClass system
  tls_context_class = record {
    Object = TlsContext;
    create = create system;
    destroy = destroy system;
    get = TlsContext.get;
    create_holds = create-Returns;
    destroy_frees = destroy-frees;
  }

  -- An object that is made and destroyed frees what it held.
  pub made-destroyed :
      (class : TlsContextClass system) (is_server : Bool) (trace : Trace)
      → (after : Trace) × ((class.create is_server >>= class.destroy) trace ≡ some (ok tt, after))
        × (1 ≤ frees (system.answer trace (ctx_new is_server)) after)
  made-destroyed class is_server trace =
      let (c, middle, e, holds) = class.create_holds is_server trace in
      let (after, e', f) = class.destroy_frees c (system.answer trace (ctx_new is_server)) middle in
      let same = (ℤ_eq_iff (class.get c) (system.answer trace (ctx_new is_server))).1 holds in
      (after, rw e e', rw (f, same) (omega arith))
