-- ===== src/Logger/Class.antt =====
-- The functions that Logger.h declares, as the other parts see them: a text for the file and the
-- screen, line by line. Their implementation is in Logger.cpp.
use small_http_server.Base.{ℕ, ◌≡◌, refl, subst, Bool, true, List, [], ◌∷◌, length, All}
use small_http_server.Text.{Buffer}
use small_http_server.Logger.{
  Clock, Logs, log_prv, log_error_prv, write_log, write_logs_from, write_logs,
}
use small_http_server.Logger.Lines.{IsLine, log_text, MoreLines, write_logs-MoreLines}

-- The times have no line end.
abbrev pub HasLines : Clock → Type 0
HasLines clock = (t : ℕ) → IsLine (clock.put_time t)

-- LogPrv and LogErrorPrv write what stands before a message, and the two functions WriteLog a message
-- and a list of messages.
pub record LogFunctions (clock : Clock) (no_breaks : HasLines clock) : Type 0 where
  pub log_prv : Logs → Logs
  pub log_error_prv : Logs → Logs
  pub write_log : Buffer → Bool → Logs → Logs
  pub write_logs : List Buffer → Logs → Logs
  pub write_logs_one :
      (message : Buffer) (logs : Logs)
      → write_logs (message ∷ []) logs ≡ write_log message true logs
  pub write_logs_lines :
      (messages : List Buffer) (logs : Logs)
      → All IsLine messages
      → MoreLines clock no_breaks logs
          (write_logs messages logs)
          (log_text clock logs.readings messages)
          (length messages)

module _ (clock : Clock) where
  pub write_logs_single :
      (message : Buffer) (logs : Logs)
      → write_logs clock (message ∷ []) logs ≡ write_log clock message true logs
  unfolding write_logs write_logs_from
  write_logs_single message logs = refl

  module _ (no_breaks : HasLines clock) where
    abbrev pub log_functions : LogFunctions clock no_breaks
    log_functions = record {
      log_prv = log_prv clock;
      log_error_prv = log_error_prv clock;
      write_log = write_log clock;
      write_logs = write_logs clock;
      write_logs_one = write_logs_single;
      write_logs_lines = write_logs-MoreLines clock no_breaks;
    }

    -- The default argument of WriteLog: a message is written on one line, behind the time.
    pub write_log-MoreLines :
        (f : LogFunctions clock no_breaks) (message : Buffer) (logs : Logs)
        → IsLine message
        → MoreLines clock no_breaks logs
            (f.write_log message true logs)
            (log_text clock logs.readings (message ∷ []))
            1
    write_log-MoreLines f message logs h =
        subst
          (λ next.
            MoreLines clock no_breaks logs next (log_text clock logs.readings (message ∷ [])) 1)
          (f.write_logs_one message logs) (f.write_logs_lines (message ∷ []) logs (h, tt))
