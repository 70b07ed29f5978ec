-- ===== src/Worker/Handler.antt =====
-- The handler of the function Worker of Worker.cpp.
use small_http_server.Base.{true}
use small_http_server.Exceptions.{Exception, what}
use small_http_server.Text.{codes}
use small_http_server.Logger.{Clock, Logs, write_log}

-- What a thread that an exception ends writes.
unfoldable pub report_end : Clock → Exception → Logs → Logs
unfolding write_log what
report_end clock e logs = write_log clock (codes (what e)) true logs
