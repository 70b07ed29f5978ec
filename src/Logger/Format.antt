-- ===== src/Logger/Format.antt =====
-- The functions log and logError of Logger.h, which build a format for std::vformat.
use small_http_server.Base.{
  ℕ, zero, suc, ◌+◌, ◌≡◌, refl, sym, ap, ◌∙◌, List, [], ◌∷◌, ◌++◌, length, append_assoc, append-nil,
  list_laws,
}
use small_http_server.Exceptions.{ok}
use small_http_server.Text.{Buffer, codes}
use small_http_server.Logger.{
  Clock, Logs, Arg, format_arg, format_loop, get_format_string, vformat, endl, time_at, time_prefix,
  write_file, write_screen, log_prv, log_error_prv, put_message, put_endl, log, log_error,
}

fields : ℕ → Buffer
fields zero = []
fields (suc n) = codes "{}" ++ fields n

-- The texts of the arguments in a row.
unfoldable pub texts : List Arg → Buffer
texts [] = []
texts (arg ∷ args) = format_arg arg ++ texts args

format_loop-fields : (n : ℕ) (s : Buffer) → format_loop n s ≡ s ++ fields n
unfolding format_loop fields
format_loop-fields zero s = sym (append-nil s)
format_loop-fields (suc n) s =
    format_loop-fields n (s ++ codes "{}") ∙ append_assoc s (codes "{}") (fields n)

vformat-fields : (args : List Arg) → vformat (fields (length args)) args ≡ ok (texts args)
unfolding vformat fields texts
vformat-fields [] = refl
vformat-fields (arg ∷ args) = rw (vformat-fields args)

-- The format that is built takes every argument once: std::vformat does not throw, and writes the
-- arguments in a row, also where braces stand in them.
pub vformat-get_format_string :
    (args : List Arg) → vformat (get_format_string (length args)) args ≡ ok (texts args)
unfolding get_format_string
vformat-get_format_string args =
    ap (λ (f : Buffer). vformat f args) (format_loop-fields (length args) []) ∙ vformat-fields args

module _ (clock : Clock) where
  -- What a call of `log` or `logError` leaves: a line in the file, with the time and a mark, and a
  -- line on the screen, with the time of a second reading.
  abbrev pub with_line : Buffer → List Arg → Logs → Logs
  with_line mark args logs = record {
    file = logs.file ++ (time_at clock logs.readings ++ (mark ++ (texts args ++ endl)));
    screen =
        logs.screen
        ++ (time_at clock (logs.readings + 1)
            ++ (codes "'" ++ (texts args ++ (codes "'" ++ endl))));
    readings = logs.readings + 1 + 1;
  }

  -- Both never throw, whatever their arguments; each appends one entry to the file and one to the
  -- screen, which differ in their times, and changes nothing that was written before.
  pub log-with_line :
      (args : List Arg) (logs : Logs)
      → (log clock args logs ≡ ok (with_line (codes " ") args logs))
        × (log_error clock args logs ≡ ok (with_line (codes " Error ") args logs))
  unfolding log log_error put_endl put_message log_prv log_error_prv time_prefix write_file
      write_screen
  log-with_line args logs = (
    rw (vformat-get_format_string args) (simp list_laws),
    rw (vformat-get_format_string args) (simp list_laws),
  )
