-- ===== src/Tests/Program.antt =====
-- Runs of the program.
use small_http_server.Base.{ℕ, ◌≡◌, refl, Bool, false, [], ◌∷◌, some, All}
use small_http_server.Exceptions.{parse_exception}
use small_http_server.Program.{
  running, Program, create_threads, start, accept, Step, accepts, Reach,
}
use small_http_server.Program.Refusals.{HasEnded, IsRefused, refused_end-All}
use small_http_server.Tests.Peers.{Session, client}
use small_http_server.Tests.Worker.{
  open_file, directory, sends, bad_request, bad_request-Refused, bad_request-Arrived,
}

abbrev pub never : ℕ → Bool
never k = false

abbrev pub begin : Program Session
unfolding start create_threads
begin = start

abbrev pub accepted_one : Program Session
unfolding accept
accepted_one = accept open_file client directory never (some (sends bad_request)) begin

pub begin-Step : Step open_file client directory never begin accepted_one
unfolding accept accepted_one
begin-Step = accepts (some (sends bad_request)) refl

bad-IsRefused : IsRefused open_file client directory never (sends bad_request)
bad-IsRefused = record {
  buffer = bad_request;
  after = record { inbox = []; outbox = [] };
  reason = parse_exception "\r\n wasn't found";
  arrived = bad_request-Arrived;
  refused = bad_request-Refused;
}

-- Two threads, and two refused requests.
abbrev two : Program Session
two = record {
  stack = some (sends bad_request) ∷ some (sends bad_request) ∷ [];
  workers = running 0 ∷ running 0 ∷ [];
  accepted = 2;
  closed = [];
}

refused_end-All_example :
    (q : Program Session) × Reach open_file client directory never two q
    × All HasEnded q.workers
    × (q.stack ≡ [])
refused_end-All_example =
    refused_end-All open_file client directory never (λ k. refl) two (0 ∷ 0 ∷ [])
      (sends bad_request ∷ sends bad_request ∷ []) [] refl refl refl
      (bad-IsRefused, (bad-IsRefused, tt))
