-- ===== src/Base/Int.antt =====
-- The signed integers that the system calls return, over the native numbers: `negsuc n` is
-- -(n + 1).
use Prim.Native.Nat.{ℕ, zero, suc}
use mathlib.Core.Bool.{Bool, true, false, not}
use mathlib.Core.Path.{◌≡◌}
use mathlib.Core.Logic.{◌↔◌}
use native.Mathlib.Omega.{arith}
use small_http_server.Base.Tests.{◌==◌}

pub data ℤ : Type 0 where
  pos : ℕ → ℤ
  negsuc : ℕ → ℤ

-- r > 0, r < 0 and r <= 0.
abbrev pub is_positive : ℤ → Bool
is_positive (pos zero) = false
is_positive (pos (suc n)) = true
is_positive (negsuc n) = false

abbrev pub is_negative : ℤ → Bool
is_negative (pos n) = false
is_negative (negsuc n) = true

abbrev pub is_not_positive : ℤ → Bool
is_not_positive r = not (is_positive r)

-- r == -1 and r == 0.
abbrev pub is_minus_one : ℤ → Bool
is_minus_one (pos n) = false
is_minus_one (negsuc zero) = true
is_minus_one (negsuc (suc n)) = false

abbrev pub is_zero : ℤ → Bool
is_zero (pos zero) = true
is_zero (pos (suc n)) = false
is_zero (negsuc n) = false

abbrev pub minus_one : ℤ
minus_one = negsuc 0

abbrev pub ℤ_eq : ℤ → ℤ → Bool
ℤ_eq (pos m) (pos n) = m == n
ℤ_eq (negsuc m) (negsuc n) = m == n
ℤ_eq (pos m) (negsuc n) = false
ℤ_eq (negsuc m) (pos n) = false

pub ℤ_eq_iff : (a b : ℤ) → (ℤ_eq a b ≡ true) ↔ (a ≡ b)
ℤ_eq_iff (pos m) (pos n) = ground arith
ℤ_eq_iff (negsuc m) (negsuc n) = ground arith
ℤ_eq_iff (pos m) (negsuc n) = ground arith
ℤ_eq_iff (negsuc m) (pos n) = ground arith
