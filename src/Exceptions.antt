-- ===== src/Exceptions.antt =====
-- Exceptions.h, and a computation that may throw. The reason is the text that `what()` returns.
use small_http_server.Base.{String}

-- `out_of_range` is what std::string::substr and std::map::at throw; std::format_error is a
-- std::runtime_error.
pub data Exception : Type 0 where
  net_exception : String → Exception
  parse_exception : String → Exception
  out_of_range : Exception
  runtime_error : String → Exception

unfoldable pub what : Exception → String
what (net_exception reason) = reason
what (parse_exception reason) = reason
what out_of_range = "out_of_range"
what (runtime_error reason) = reason

pub data Result {ℓ} (A : Type ℓ) : Type ℓ where
  ok : A → Result A
  throw : Exception → Result A

-- What follows is left out where an exception was thrown.
infixl 5 ◌>>=◌
abbrev pub ◌>>=◌ {κ ℓ} : {A : Type κ} {B : Type ℓ} → Result A → (A → Result B) → Result B
throw e >>= next = throw e
ok value >>= next = next value
