-- ===== src/Daemon.antt =====
-- DaemonHelper.h.
use small_http_server.Base.{◌≡◌, ◌⊎◌, inl, inr, [], ◌∷◌, if◌then◌else◌}
use small_http_server.Base.Int.{ℤ, pos, negsuc, ℤ_eq}
use small_http_server.Exceptions.{Result, ok}
use small_http_server.Text.{codes}
use small_http_server.Logger.{Clock, Logs, text, log}
use small_http_server.Logger.Format.{with_line, log-with_line}

-- MakeDaemon, with what `daemon` of <unistd.h> returns.
unfoldable pub make_daemon : Clock → ℤ → Logs → Result Logs
unfolding log
make_daemon clock r logs =
    if ℤ_eq r (pos 1)
    then log clock (text (codes "Error daemonise") ∷ []) logs
    else log clock (text (codes "Launch daemon") ∷ []) logs

-- Whatever `daemon` returns, 0 or -1 for a failure, the line written is the one of a success.
pub make_daemon-Launch :
    (clock : Clock) (r : ℤ) (logs : Logs)
    → (r ≡ pos 0) ⊎ (r ≡ negsuc 0)
    → make_daemon clock r logs
      ≡ ok (with_line clock (codes " ") (text (codes "Launch daemon") ∷ []) logs)
unfolding make_daemon
make_daemon-Launch clock r logs (inl e) =
    rw e (log-with_line clock (text (codes "Launch daemon") ∷ []) logs).0
make_daemon-Launch clock r logs (inr e) =
    rw e (log-with_line clock (text (codes "Launch daemon") ∷ []) logs).0
