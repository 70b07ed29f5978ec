-- ===== src/Logger/Prefix.antt =====
-- The time that stands before a line: class TimePrefix of Logger.cpp.
use native.Mathlib.Nat.{pow-suc}
use small_http_server.Base.{
  ℕ, zero, suc, ◌+◌, ◌/◌, ◌%◌, ◌^◌, ◌≤◌, ◌<◌, ◌≡◌, [], ◌∷◌, ◌++◌, arith, length, length-append,
}
use small_http_server.Text.{codes, digits, to_string}
use small_http_server.Logger.{Clock, Logs, time_at, time_prefix, get_size}

tenth : (n w : ℕ) → n < 10 ^ suc (suc w) → n / 10 < 10 ^ suc w
tenth n w h = omega (arith, pow-suc 10 (suc w))

-- A number below 10^w has at most w digits.
digits-length_le : (fuel n w : ℕ) → n < 10 ^ w → 1 ≤ w → length (digits fuel n) ≤ w
unfolding digits
digits-length_le zero n w h k = omega arith
digits-length_le (suc fuel) n zero h k = absurd (omega arith)
digits-length_le (suc fuel) n (suc zero) h k = ground arith
digits-length_le (suc fuel) n (suc (suc w)) h k = ground (
  arith,
  length-append (digits fuel (n / 10)) ((48 + n % 10) ∷ []),
  digits-length_le fuel (n / 10) (suc w) (tenth n w h) (omega arith),
)

to_string-length : (n : ℕ) → n < 1000000 → (1 ≤ length (to_string n)) × (length (to_string n) ≤ 6)
unfolding to_string digits
to_string-length n h = (
  ground (arith, length-append (digits n (n / 10)) ((48 + n % 10) ∷ [])),
  digits-length_le (suc n) n 6 (omega arith) (omega arith),
)

-- Where the date and the time of day take nineteen bytes, as they do in the years 1000 to 9999, the
-- prefix takes at least twenty-one and at most twenty-six.
pub time_prefix-size :
    (clock : Clock) (logs : Logs)
    → ((t : ℕ) → length (clock.put_time t) ≡ 19)
    → (21 ≤ get_size (time_prefix clock logs).0) × (get_size (time_prefix clock logs).0 ≤ 26)
unfolding get_size time_prefix time_at
time_prefix-size clock logs h = omega (
  arith,
  h (clock.now logs.readings / 1000000000),
  length-append (clock.put_time (clock.now logs.readings / 1000000000))
      (codes ":" ++ to_string (clock.now logs.readings % 1000000000 / 1000)),
  to_string-length (clock.now logs.readings % 1000000000 / 1000) (omega arith),
)
