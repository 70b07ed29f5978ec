-- ===== src/Logger/Lines.antt =====
-- WriteLog of Logger.cpp: a line for each message.
use small_http_server.Base.{
  ℕ, zero, suc, ◌+◌, ◌-◌, ◌/◌, ◌%◌, ◌≤◌, ◌≡◌, ◌≢◌, refl, sym, ap, ◌∙◌, Bool, true, false, List, [],
  ◌∷◌, ◌++◌, ◌==◌, arith, length, length-replicate, replicate, All, All-append, All-imp,
  append_assoc, append-nil, if◌then◌else◌,
}
use small_http_server.Text.{Buffer, codes, to_string}
use small_http_server.Text.Decimal.{IsDigit, to_string-IsDigit}
use small_http_server.Logger.{
  Clock, Logs, TimePrefix, get_string, get_size, setw, endl, time_at, time_prefix, write_file,
  write_screen, write_line, write_log, write_logs_from, write_logs,
}

-- How many lines end in a text.
abbrev pub line_ends : Buffer → ℕ
line_ends [] = 0
line_ends (c ∷ s) = (if c == 10 then 1 else 0) + line_ends s

abbrev pub IsLine : Buffer → Type 0
IsLine s = All (λ (c : ℕ). c ≢ 10) s

line_ends-append : (s t : Buffer) → line_ends (s ++ t) ≡ line_ends s + line_ends t
line_ends-append [] t = omega arith
line_ends-append (c ∷ s) t = omega (arith, line_ends-append s t)

line_ends-IsLine : (s : Buffer) → IsLine s → line_ends s ≡ 0
line_ends-IsLine [] h = refl
line_ends-IsLine (c ∷ s) (d, h) = ground (arith, line_ends-IsLine s h)

replicate-IsLine : (n : ℕ) → IsLine (replicate n 32)
replicate-IsLine zero = tt
replicate-IsLine (suc n) = (λ e. omega arith, replicate-IsLine n)

replicate-blank : (n : ℕ) → All (λ (c : ℕ). c ≡ 32) (replicate n 32)
replicate-blank zero = tt
replicate-blank (suc n) = (refl, replicate-blank n)

suc_one : (n : ℕ) → suc n ≡ 1 + n
suc_one n = omega arith

time_at-IsLine :
    (clock : Clock) (k : ℕ) → ((t : ℕ) → IsLine (clock.put_time t)) → IsLine (time_at clock k)
unfolding time_at
time_at-IsLine clock k h =
    All-append (λ c. c ≢ 10) (clock.put_time (clock.now k / 1000000000)) _
      (h (clock.now k / 1000000000))
      (
        λ e. omega arith,
        All-imp {P = IsDigit} (to_string (clock.now k % 1000000000 / 1000)) (λ c d e. omega arith)
            (to_string-IsDigit (clock.now k % 1000000000 / 1000)),
      )

write_line-line_ends :
    (prefix : TimePrefix) (is_time_prefix : Bool) (message : Buffer)
    → IsLine prefix.time
    → IsLine message
    → line_ends (write_line prefix is_time_prefix message) ≡ 1
unfolding write_line setw
write_line-line_ends prefix true message p m = omega (
  arith,
  line_ends-append prefix.time (codes " '" ++ (message ++ (codes "' " ++ endl))),
  line_ends-append message (codes "' " ++ endl),
  line_ends-IsLine prefix.time p,
  line_ends-IsLine message m,
)
write_line-line_ends prefix false message p m = omega (
  arith,
  line_ends-append (setw (get_size prefix) (codes " '")) (message ++ (codes "' " ++ endl)),
  line_ends-append (replicate (get_size prefix - 2) 32) (codes " '"),
  line_ends-append message (codes "' " ++ endl),
  line_ends-IsLine (replicate (get_size prefix - 2) 32) (replicate-IsLine (get_size prefix - 2)),
  line_ends-IsLine message m,
)

-- The text of a list of messages, of which the k-th reading of the clock writes the first: each
-- message in quotes on a line of its own, the first behind the time, the others behind blanks.
abbrev pub quoted : Buffer → Buffer
quoted message = codes " '" ++ (message ++ codes "' \n")

abbrev pub indented_text : Clock → ℕ → List Buffer → Buffer
indented_text clock k [] = []
indented_text clock k (message ∷ messages) =
    replicate (length (time_at clock k) - 2) 32
    ++ (quoted message ++ indented_text clock (k + 1) messages)

abbrev pub log_text : Clock → ℕ → List Buffer → Buffer
log_text clock k [] = []
log_text clock k (message ∷ messages) =
    time_at clock k ++ (quoted message ++ indented_text clock (k + 1) messages)

module _ (clock : Clock) (no_breaks : (t : ℕ) → IsLine (clock.put_time t)) where
  -- The logs with a text more, the same in the file and on the screen, of `count` lines.
  pub record MoreLines (logs next : Logs) (written : Buffer) (count : ℕ) : Type 0 where
    pub in_file : next.file ≡ logs.file ++ written
    pub on_screen : next.screen ≡ logs.screen ++ written
    pub lines : line_ends written ≡ count
    pub times : next.readings ≡ logs.readings + count

  -- What stands before a message.
  abbrev margin : ℕ → Bool → Buffer
  margin k true = time_at clock k
  margin k false = replicate (length (time_at clock k) - 2) 32

  write_line-quoted :
      (k : ℕ) (is_time_prefix : Bool) (message : Buffer)
      → write_line (record { time = time_at clock k }) is_time_prefix message
        ≡ margin k is_time_prefix ++ quoted message
  unfolding write_line setw
  write_line-quoted k true message = refl
  write_line-quoted k false message =
      append_assoc (replicate (length (time_at clock k) - 2) 32) (codes " '")
        (message ++ (codes "' " ++ endl))

  write_log-MoreLines :
      (message : Buffer) (is_time_prefix : Bool) (logs : Logs)
      → IsLine message
      → MoreLines logs
          (write_log clock message is_time_prefix logs)
          (margin logs.readings is_time_prefix ++ quoted message)
          1
  unfolding write_log time_prefix write_file write_screen
  write_log-MoreLines message is_time_prefix logs m =
      rw (sym (write_line-quoted logs.readings is_time_prefix message)) (record {
        in_file = refl;
        on_screen = refl;
        lines =
            write_line-line_ends (record { time = time_at clock logs.readings }) is_time_prefix
              message (time_at-IsLine clock logs.readings no_breaks) m;
        times = refl;
      })

  MoreLines-trans :
      {o p q : Logs} {s t : Buffer} {m n : ℕ}
      → MoreLines o p s m
      → MoreLines p q t n
      → MoreLines o q (s ++ t) (m + n)
  MoreLines-trans {o} {s = s} {t = t} a b = record {
    in_file = b.in_file ∙ ap (λ (u : Buffer). u ++ t) a.in_file ∙ append_assoc o.file s t;
    on_screen = b.on_screen ∙ ap (λ (u : Buffer). u ++ t) a.on_screen ∙ append_assoc o.screen s t;
    lines = omega (arith, line_ends-append s t, a.lines, b.lines);
    times = omega (arith, a.times, b.times);
  }

  MoreLines-nil : (logs : Logs) → MoreLines logs logs [] 0
  MoreLines-nil logs = record {
    in_file = sym (append-nil logs.file);
    on_screen = sym (append-nil logs.screen);
    lines = refl;
    times = omega arith;
  }

  -- Messages behind the first one.
  write_logs_from-MoreLines :
      (messages : List Buffer) (logs : Logs)
      → All IsLine messages
      → MoreLines logs
          (write_logs_from clock false messages logs)
          (indented_text clock logs.readings messages)
          (length messages)
  unfolding write_logs_from write_log time_prefix write_file write_screen
  write_logs_from-MoreLines [] logs h = MoreLines-nil logs
  write_logs_from-MoreLines (message ∷ messages) logs (m, h) =
      rw
        (
          suc_one (length messages),
          sym (
              append_assoc (margin logs.readings false) (quoted message)
                (indented_text clock (logs.readings + 1) messages)),
        )
        (MoreLines-trans (write_log-MoreLines message false logs m)
          (write_logs_from-MoreLines messages (write_log clock message false logs) h))

  -- WriteLog of messages in which no line ends appends to the file and to the screen the same text:
  -- a line for each message, which holds it in quotes; the first stands behind the time, and the
  -- others behind as many blanks as the time has bytes, less two. The clock is read once for each.
  pub write_logs-MoreLines :
      (messages : List Buffer) (logs : Logs)
      → All IsLine messages
      → MoreLines logs
          (write_logs clock messages logs)
          (log_text clock logs.readings messages)
          (length messages)
  unfolding write_logs write_logs_from write_log time_prefix write_file write_screen
  write_logs-MoreLines [] logs h = MoreLines-nil logs
  write_logs-MoreLines (message ∷ messages) logs (m, h) =
      rw
        (
          suc_one (length messages),
          sym (
              append_assoc (time_at clock logs.readings) (quoted message)
                (indented_text clock (logs.readings + 1) messages)),
        )
        (MoreLines-trans (write_log-MoreLines message true logs m)
          (write_logs_from-MoreLines messages (write_log clock message true logs) h))

-- The message of the first line stands two columns further to the right than those of the lines
-- without the time, where the prefix has two bytes at least: the padding is that of the quote, too.
pub write_line-columns :
    (prefix : TimePrefix) (message : Buffer)
    → 2 ≤ get_size prefix
    → (blanks rest : Buffer) × (write_line prefix true message
        ≡ get_string prefix ++ (codes " '" ++ (message ++ rest)))
      × (write_line prefix false message ≡ blanks ++ (codes " '" ++ (message ++ rest)))
      × All (λ (c : ℕ). c ≡ 32) blanks
      × (length blanks + 2 ≡ get_size prefix)
unfolding write_line setw
write_line-columns prefix message h = (
  replicate (get_size prefix - 2) 32,
  codes "' " ++ endl,
  refl,
  append_assoc (replicate (get_size prefix - 2) 32) (codes " '") (message ++ (codes "' " ++ endl)),
  replicate-blank (get_size prefix - 2),
  omega (arith, length-replicate {A = ℕ} (get_size prefix - 2) 32),
)
