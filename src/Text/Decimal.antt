-- ===== src/Text/Decimal.antt =====
-- The digits that std::to_string writes.
use small_http_server.Base.{
  ℕ, zero, suc, ◌+◌, ◌-◌, ◌*◌, ◌/◌, ◌%◌, ◌≤◌, ◌<◌, ◌≡◌, refl, [], ◌∷◌, ◌++◌, arith, All, All-append,
}
use small_http_server.Text.{Buffer, digits, to_string}

-- The number that a row of digits stands for, after `acc`.
unfoldable pub value_from : ℕ → Buffer → ℕ
value_from acc [] = acc
value_from acc (c ∷ s) = value_from (acc * 10 + (c - 48)) s

pub value_from-append :
    (acc : ℕ) (s t : Buffer) → value_from acc (s ++ t) ≡ value_from (value_from acc s) t
unfolding value_from
value_from-append acc [] t = refl
value_from-append acc (c ∷ s) t = value_from-append (acc * 10 + (c - 48)) s t

abbrev pub IsDigit : ℕ → Type 0
IsDigit c = (48 ≤ c) × (c ≤ 57)

digits-value : (fuel n : ℕ) → n < fuel → value_from 0 (digits fuel n) ≡ n
unfolding digits value_from
digits-value zero n h = elim h [ ]
digits-value (suc fuel) n h = ground (
  arith,
  value_from-append 0 (digits fuel (n / 10)) ((48 + n % 10) ∷ []),
  digits-value fuel (n / 10),
)

digits-IsDigit : (fuel n : ℕ) → All IsDigit (digits fuel n)
unfolding digits
digits-IsDigit zero n = tt
digits-IsDigit (suc fuel) n = ground (
  arith,
  All-append IsDigit (digits fuel (n / 10)) ((48 + n % 10) ∷ []) (digits-IsDigit fuel (n / 10)),
)

pub to_string-value : (n : ℕ) → value_from 0 (to_string n) ≡ n
unfolding to_string
to_string-value n = digits-value (suc n) n (omega arith)

pub to_string-IsDigit : (n : ℕ) → All IsDigit (to_string n)
unfolding to_string
to_string-IsDigit n = digits-IsDigit (suc n) n
