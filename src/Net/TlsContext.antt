-- ===== src/Net/TlsContext.antt =====
-- TLSContext.h and TLSContext.cpp. The library's start-up calls are left out: they change nothing
-- that the program sees.
pub mod Ownership
pub mod Class
use small_http_server.Base.{Bool, not, if◌then◌else◌}
use small_http_server.Base.Int.{ℤ, is_zero}
use small_http_server.Run.{Run, pure, ◌>>=◌}
use small_http_server.Net.System.{
  System, Trace, perform, ctx_new, ctx_use_certificate, ctx_use_private_key, ctx_free,
}

-- The pointer m_ctx.
pub record TlsContext : Type 0 where
  pub ctx : ℤ

-- Get
abbrev pub get : TlsContext → ℤ
get context = context.ctx

module _ (system : System) where
  -- Whether the certificate and its key are loaded; the key is not tried without the certificate.
  unfoldable pub load_certificate : ℤ → Run Trace Bool
  load_certificate ctx = do
    certificate ← perform system (ctx_use_certificate ctx)
    if is_zero certificate
        then pure Bool.false
        else perform system (ctx_use_private_key ctx) >>= λ key. pure (not (is_zero key))

  -- The pointer is kept where the certificate cannot be loaded, though its object is freed.
  unfoldable pub set_up : ℤ → Run Trace TlsContext
  unfolding load_certificate
  set_up ctx = do
    loaded ← load_certificate ctx
    if loaded
        then pure (record { ctx = ctx })
        else perform system (ctx_free ctx) >>= λ _. pure (record { ctx = ctx })

  unfoldable pub create : Bool → Run Trace TlsContext
  unfolding set_up
  create is_server = do
    ctx ← perform system (ctx_new is_server)
    if is_zero ctx then pure (record { ctx = ctx }) else set_up ctx

  unfoldable pub destroy : TlsContext → Run Trace (Unit {0})
  destroy context = perform system (ctx_free context.ctx) >>= λ _. pure tt
