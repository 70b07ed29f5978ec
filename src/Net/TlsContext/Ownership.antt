-- ===== src/Net/TlsContext/Ownership.antt =====
-- How often the object of a TLS context is freed.
use small_http_server.Base.{
  ℕ, ◌+◌, ◌≡◌, Bool, false, not, ◌&&◌, [], ◌∷◌, some, none, arith, if◌then◌else◌,
}
use small_http_server.Base.Int.{ℤ, is_zero, ℤ_eq, ℤ_eq_iff}
use small_http_server.Run.{continue}
use small_http_server.Net.System.{
  System, Trace, ctx_new, ctx_use_certificate, ctx_use_private_key, ctx_free,
}
use small_http_server.Net.TlsContext.{create, destroy}

-- The calls that free the object.
abbrev pub frees : ℤ → Trace → ℕ
frees ctx [] = 0
frees ctx (ctx_free c ∷ trace) = (if ℤ_eq c ctx then 1 else 0) + frees ctx trace
frees ctx (_ ∷ trace) = frees ctx trace

module _ (system : System) where
  -- A context that is made and destroyed, on an empty trace.
  unfoldable pub life_of : Bool → Trace
  unfolding create destroy
  life_of is_server = elim (continue (create system is_server []) (destroy system)) [
    | some (r, trace) ↦ trace
    | none ↦ []
  ]

  abbrev pub made : Bool → ℤ
  made is_server = system.answer [] (ctx_new is_server)

  -- What the calls that load the certificate and its key answer.
  abbrev pub certificate_loaded : Bool → Bool
  certificate_loaded is_server =
      not (is_zero (system.answer (ctx_new is_server ∷ []) (ctx_use_certificate (made is_server))))
      && not (
          is_zero (
            system.answer (ctx_use_certificate (made is_server) ∷ ctx_new is_server ∷ [])
              (ctx_use_private_key (made is_server))))

  -- The object of a context that could be made is freed once where the certificate and its key are
  -- loaded, and twice, by the constructor and by the destructor, where they are not.
  pub life_of-frees :
      (is_server : Bool)
      → is_zero (made is_server) ≡ false
      → frees (made is_server) (life_of is_server) ≡ (if certificate_loaded is_server then 1 else 2)
  unfolding life_of
  life_of-frees is_server h = ground (arith, ℤ_eq_iff (made is_server) (made is_server))
