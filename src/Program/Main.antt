-- ===== src/Program/Main.antt =====
-- The function main of main.cpp up to its loop, and its handler.
pub mod SetUp
pub mod Balance
pub mod Listens
use mathlib.Core.Option
use small_http_server.Base.{
  ◌≡◌, ◌≢◌, true, subst, inl, inr, Bool-cases, refl, ap, ◌∙◌, sym, List, [], ◌∷◌, ◌++◌, Option,
  none, some, map,
}
use small_http_server.Base.Int.{is_minus_one}
use small_http_server.Exceptions.{Exception, Result, ok, throw, what}
use small_http_server.Run.{Run, pure, lift, continue, ◌>>=◌}
use small_http_server.Text.{Buffer, codes}
use small_http_server.Logger.{Clock, Logs, text, log_error, write_log}
use small_http_server.Net.System.{System, Trace, epoll_create}
use small_http_server.Net.Server
use small_http_server.Net.Server.{Server}
use small_http_server.Net.TlsContext
use small_http_server.Net.ServerSocket.{ServerSocket}
use small_http_server.Options
use small_http_server.Options.{ServerOption, Key, Json, get_directory}
use small_http_server.Program.Setup.{add_option, add_options, MoreSockets, add_options-MoreSockets}

-- `options.GetDirectory(0)`, which is undefined where there is no option: `none`.
unfoldable pub first_directory : List ServerOption → Option Buffer
unfolding get_directory
first_directory options = get_directory options 0

-- The handler of main for a std::exception.
unfoldable pub report : Clock → Exception → Logs → Result Logs
unfolding log_error what
report clock e logs = log_error clock (text (codes "Exception ") ∷ text (codes (what e)) ∷ []) logs

module _ (system : System) where
  -- Where an exception leaves the block, the server that it declares is destroyed.
  unfoldable pub unwind :
      {A : Type 0}
      → Server
      → (Server → Run Trace A)
      → Option (Result Server × Trace)
      → Option (Result A × Trace)
  unfolding Server.destroy
  unwind server next none = none
  unwind server next (some (ok grown, trace)) = next grown trace
  unwind server next (some (throw e, trace)) =
      continue (Server.destroy system server trace) (λ _ after. some (throw e, after))

  -- The loop over the options.
  unfoldable pub add_sockets : Server → List ServerOption → Run Trace Server
  unfolding unwind add_option
  add_sockets server [] = pure server
  add_sockets server (option ∷ options) = λ trace.
      unwind server (λ grown. add_sockets grown options) (add_option system server option trace)

  unfoldable pub make_server : List ServerOption → Run Trace Server
  unfolding Server.create add_sockets
  make_server options = do server ← Server.create system; add_sockets server options

  -- The block up to CreateThreads, behind the constructor of Options: the server, and the directory
  -- that the threads are given.
  unfoldable pub prepare : List ServerOption → Run Trace (Server × Option Buffer)
  unfolding make_server first_directory
  prepare options = do server ← make_server options; pure (server, first_directory options)

  module _ (json : Json) where
    unfoldable pub set_up :
        List Key → Option (Result json.Value) → Run Trace (Server × Option Buffer)
    unfolding Options.create prepare
    set_up keys file = do options ← lift (Options.create json keys file); prepare options
