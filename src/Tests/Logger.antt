-- ===== src/Tests/Logger.antt =====
-- The logger, with a clock that stands still.
use small_http_server.Base.{◌≡◌, refl, List, [], ◌∷◌, arith}
use small_http_server.Base.Int.{negsuc}
use small_http_server.Exceptions.{ok}
use small_http_server.Text.{Buffer, codes, digits, to_string}
use small_http_server.Logger.{
  Clock, Logs, Arg, text, number, time_at, write_logs, log, log_error, vformat, get_format_string,
  format_loop, format_arg,
}
use small_http_server.Logger.Format.{with_line, log-with_line}
use small_http_server.Logger.Lines.{IsLine, log_text, MoreLines, write_logs-MoreLines}

abbrev pub noon : Clock
noon = record { now = λ k. 1700000000000042000; put_time = λ t. codes "2023-11-14 12:00:00" }

abbrev pub new_logs : Logs
new_logs = record { file = []; screen = []; readings = 0 }

-- The format for two arguments, and what is written for a text with braces and a number.
two_fields : get_format_string 2 ≡ codes "{}{}"
unfolding get_format_string format_loop
two_fields = refl

braces :
    vformat (codes "{}{}") (text (codes "a{}b ") ∷ number (negsuc 0) ∷ []) ≡ ok (codes "a{}b -1")
unfolding vformat format_arg to_string digits
braces = refl

-- The microseconds are written without leading zeros.
noon_time : time_at noon 0 ≡ codes "2023-11-14 12:00:00:42"
unfolding time_at to_string digits
noon_time = refl

abbrev size_args : List Arg
size_args = text (codes "Count of threads ") ∷ number (negsuc 0) ∷ []

log-with_line_example :
    (log noon size_args new_logs ≡ ok (with_line noon (codes " ") size_args new_logs))
    × (log_error noon size_args new_logs ≡ ok (with_line noon (codes " Error ") size_args new_logs))
log-with_line_example = log-with_line noon size_args new_logs

noon-IsLine : IsLine (codes "2023-11-14 12:00:00")
noon-IsLine = ground arith

abbrev messages : List Buffer
messages = codes "one" ∷ codes "two" ∷ []

write_logs-MoreLines_example :
    MoreLines noon
      (λ t. noon-IsLine)
      new_logs
      (write_logs noon messages new_logs)
      (log_text noon 0 messages)
      2
write_logs-MoreLines_example =
    write_logs-MoreLines noon (λ t. noon-IsLine) messages new_logs (ground arith)
