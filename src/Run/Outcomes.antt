-- ===== src/Run/Outcomes.antt =====
-- Computations that return, with what is known of their outcome.
use small_http_server.Base.{◌≡◌, refl, Bool, true, false, Option, some, if◌then◌else◌}
use small_http_server.Exceptions.{Exception, Result, ok, throw}
use small_http_server.Run.{Run, continue}

module _ {S : Type 0} where
  -- A computation returns, and its outcome has a property.
  abbrev pub After {ℓ} : {A : Type ℓ} → (Result A → S → Type 0) → Option (Result A × S) → Type ℓ
  After {A = A} Q one = (x : Result A) × (t : S) × (one ≡ some (x, t)) × Q x t

  pub done-After :
      {A : Type 0} (Q : Result A → S → Type 0) (x : Result A) (t : S)
      → Q x t
      → After Q (some (x, t))
  done-After Q x t q = (x, t, refl, q)

  continue_from :
      {A B : Type 0} (Q : Result A → S → Type 0) (R : Result B → S → Type 0) (x : Result A) (t : S)
      (f : A → Run S B)
      → Q x t
      → ((a : A) (t : S) → Q (ok a) t → After R (f a t))
      → ((e : Exception) (t : S) → Q (throw e) t → R (throw e) t)
      → After R (continue (some (x, t)) f)
  continue_from Q R (ok a) t f q k r = k a t q
  continue_from Q R (throw e) t f q k r = (throw e, t, refl, r e t q)

  pub continue-After :
      {A B : Type 0} (Q : Result A → S → Type 0) (R : Result B → S → Type 0)
      (one : Option (Result A × S)) (f : A → Run S B)
      → After Q one
      → ((a : A) (t : S) → Q (ok a) t → After R (f a t))
      → ((e : Exception) (t : S) → Q (throw e) t → R (throw e) t)
      → After R (continue one f)
  continue-After Q R one f (x, t, e, q) k r =
      let (y, u, e', s) = continue_from Q R x t f q k r in (y, u, rw e e', s)

  pub if-After :
      {A : Type 0} (Q : Result A → S → Type 0) (b : Bool) (m n : Run S A) (t : S)
      → After Q (m t)
      → After Q (n t)
      → After Q ((if b then m else n) t)
  if-After Q true m n t h k = h
  if-After Q false m n t h k = k
