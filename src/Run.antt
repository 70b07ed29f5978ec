-- ===== src/Run.antt =====
-- A computation that acts on a state, may throw, and may run out of fuel (`none`). A state change
-- made before an exception stays.
pub mod Outcomes
use small_http_server.Base.{Option, none, some}
use small_http_server.Exceptions.{Result, ok, throw}

abbrev pub Run {ℓ} : Type 0 → Type ℓ → Type ℓ
Run S A = S → Option (Result A × S)

module _ {S : Type 0} where
  abbrev pub pure {ℓ} : {A : Type ℓ} → A → Run S A
  pure a s = some (ok a, s)

  abbrev pub lift {ℓ} : {A : Type ℓ} → Result A → Run S A
  lift r s = some (r, s)

  -- An operation that always returns.
  abbrev pub act {ℓ} : {A : Type ℓ} → (S → A × S) → Run S A
  act f s = let (a, s') = f s in some (ok a, s')

abbrev pub continue {ℓ κ} :
    {S : Type 0} {A : Type ℓ} {B : Type κ}
    → Option (Result A × S)
    → (A → Run S B)
    → Option (Result B × S)
continue none f = none
continue (some (ok a, s)) f = f a s
continue (some (throw e, s)) f = some (throw e, s)

infixl 5 ◌>>=◌ ◌>>◌
abbrev pub ◌>>=◌ {ℓ κ} : {S : Type 0} {A : Type ℓ} {B : Type κ} → Run S A → (A → Run S B) → Run S B
◌>>=◌ m f s = continue (m s) f

abbrev pub ◌>>◌ {ℓ} : {S : Type 0} {B : Type ℓ} → Run S (Unit {0}) → Run S B → Run S B
m >> k = m >>= λ _. k
