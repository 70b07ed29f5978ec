-- ===== src/Logger.antt =====
-- Logger.h and Logger.cpp: the lines that are written to log.txt and to the terminal.
pub mod Prefix
pub mod Format
pub mod Lines
pub mod Class
use small_http_server.Base.{
  ℕ, zero, suc, ◌+◌, ◌-◌, ◌/◌, ◌%◌, Bool, true, false, ◌&&◌, List, [], ◌∷◌, ◌++◌, Option, none,
  some, ◌==◌, length, replicate, if◌then◌else◌,
}
use small_http_server.Base.Int.{ℤ, pos, negsuc}
use small_http_server.Exceptions.{Result, ok, throw, runtime_error, ◌>>=◌}
use small_http_server.Text.{Buffer, codes, to_string}

-- The system's clock: the nanoseconds since the epoch at its k-th reading, and what put_time writes
-- for a local time in the format "%F %T".
pub record Clock : Type 0 where
  pub now : ℕ → ℕ
  pub put_time : ℕ → Buffer

-- The file log.txt, std::cout, and how often the clock has been read.
pub record Logs : Type 0 where
  pub file : Buffer
  pub screen : Buffer
  pub readings : ℕ

-- The field m_time.
pub record TimePrefix : Type 0 where
  pub time : Buffer

abbrev pub get_string : TimePrefix → Buffer
get_string prefix = prefix.time

unfoldable pub get_size : TimePrefix → ℕ
get_size prefix = length prefix.time

-- std::endl.
abbrev pub endl : Buffer
endl = 10 ∷ []

-- What std::setw makes of the text that is written next.
unfoldable pub setw : ℕ → Buffer → Buffer
setw width s = replicate (width - length s) 32 ++ s

-- The constructor of Logger, with what log.txt holds, or `none` where it cannot be opened.
unfoldable pub create : Option Buffer → Result Logs
create none = throw (runtime_error "Error open file")
create (some file) = ok (record { file = file; screen = []; readings = 0 })

unfoldable pub write_file : Buffer → Logs → Logs
write_file s logs = record logs { file = logs.file ++ s }

unfoldable pub write_screen : Buffer → Logs → Logs
write_screen s logs = record logs { screen = logs.screen ++ s }

-- An argument of `log`, as std::format writes it.
pub data Arg : Type 0 where
  text : Buffer → Arg
  number : ℤ → Arg

unfoldable pub format_arg : Arg → Buffer
format_arg (text s) = s
format_arg (number (pos n)) = to_string n
format_arg (number (negsuc n)) = codes "-" ++ to_string (suc n)

unfoldable pub format_loop : ℕ → Buffer → Buffer
format_loop zero s = s
format_loop (suc n) s = format_loop n (s ++ codes "{}")

-- getFormatString
unfoldable pub get_format_string : ℕ → Buffer
unfolding format_loop
get_format_string size = format_loop size []

-- std::vformat, for formats whose only braces are the fields "{}".
unfoldable pub vformat : Buffer → List Arg → Result Buffer
unfolding format_arg
vformat [] args = ok []
vformat (c ∷ []) args = ok (c ∷ [])
vformat (c ∷ d ∷ format) args = elim (c == 123 && d == 125) [
  | false ↦ do rest ← vformat (d ∷ format) args; ok (c ∷ rest)
  | true ↦ elim args [
    | [] ↦ throw (runtime_error "argument not found")
    | arg ∷ args ↦ do rest ← vformat format args; ok (format_arg arg ++ rest)
  ]
]

-- What WriteLog writes, with the time or with blanks of its width.
unfoldable pub write_line : TimePrefix → Bool → Buffer → Buffer
unfolding setw get_size
write_line prefix true message =
    get_string prefix ++ (codes " '" ++ (message ++ (codes "' " ++ endl)))
write_line prefix false message =
    setw (get_size prefix) (codes " '") ++ (message ++ (codes "' " ++ endl))

module _ (clock : Clock) where
  -- The time at the k-th reading.
  unfoldable pub time_at : ℕ → Buffer
  time_at k =
      let now = clock.now k in
      clock.put_time (now / 1000000000) ++ (codes ":" ++ to_string (now % 1000000000 / 1000))

  -- The constructor of TimePrefix.
  unfoldable pub time_prefix : Logs → TimePrefix × Logs
  unfolding time_at
  time_prefix logs =
      (record { time = time_at logs.readings }, record logs { readings = logs.readings + 1 })

  unfoldable pub log_prv : Logs → Logs
  unfolding time_prefix write_file
  log_prv logs =
      let (prefix, logs) = time_prefix logs in write_file (get_string prefix ++ codes " ") logs

  unfoldable pub log_error_prv : Logs → Logs
  unfolding time_prefix write_file
  log_error_prv logs =
      let (prefix, logs) = time_prefix logs in
      write_file (get_string prefix ++ codes " Error ") logs

  -- The operators `<<` of a Logger: for a message, and for std::endl.
  unfoldable pub put_message : Buffer → Logs → Logs
  unfolding time_prefix write_file write_screen
  put_message message logs =
      let (prefix, logs) = time_prefix (write_file message logs) in
      write_screen (get_string prefix ++ (codes "'" ++ (message ++ codes "'"))) logs

  unfoldable pub put_endl : Logs → Logs
  unfolding write_file write_screen
  put_endl logs = write_screen endl (write_file endl logs)

  unfoldable pub log : List Arg → Logs → Result Logs
  unfolding get_format_string vformat log_prv put_message put_endl
  log message logs = do
    result ← vformat (get_format_string (length message)) message
    ok (put_endl (put_message result (log_prv logs)))

  unfoldable pub log_error : List Arg → Logs → Result Logs
  unfolding get_format_string vformat log_error_prv put_message put_endl
  log_error message logs = do
    result ← vformat (get_format_string (length message)) message
    ok (put_endl (put_message result (log_error_prv logs)))

  unfoldable pub write_log : Buffer → Bool → Logs → Logs
  unfolding time_prefix write_line write_file write_screen
  write_log message is_time_prefix logs =
      let (prefix, logs) = time_prefix logs in
      let line = write_line prefix is_time_prefix message in
      write_screen line (write_file line logs)

  unfoldable pub write_logs_from : Bool → List Buffer → Logs → Logs
  unfolding write_log
  write_logs_from is_time_prefix [] logs = logs
  write_logs_from is_time_prefix (a ∷ messages) logs =
      write_logs_from false messages (write_log a is_time_prefix logs)

  -- WriteLog of several messages.
  unfoldable pub write_logs : List Buffer → Logs → Logs
  unfolding write_logs_from
  write_logs messages logs = write_logs_from true messages logs
