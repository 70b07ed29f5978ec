-- ===== src/Worker/Serve.antt =====
-- The function Worker of Worker.cpp.
use mathlib.Core.Option
use small_http_server.Base.{
  ℕ, zero, suc, ◌+◌, Bool, true, false, [], Option, none, some, if◌then◌else◌,
}
use small_http_server.Base.Int.{is_not_positive}
use small_http_server.Exceptions.{Exception, Result, ok, throw}
use small_http_server.Run.{Run, pure, lift, act, continue, ◌>>=◌}
use small_http_server.Text.{Buffer}
use small_http_server.Http.Packet.{Packet, is_keep_alive, is_get_method}
use small_http_server.Http.Parser.{parse}
use small_http_server.Net.Socket.{Socket}
use small_http_server.Worker.Process.{process_get}

module _ (open_file : Buffer → Option Buffer) (cs : Socket) (directory : Buffer) where
  open cs use {State, read_packet, is_alive}

  -- One request of the inner loop, after its test: `some is_ka` goes round again with the variable
  -- `isKA`, `none` is a `break`.
  unfoldable pub answer : Packet → Run State (Option Bool)
  unfolding process_get
  answer packet = do
    is_ka ← lift (is_keep_alive packet)
    is_get ← lift (is_get_method packet)
    if is_get
        then (do
          is_processed ← process_get open_file cs packet directory
          if is_processed then pure (some is_ka) else pure none)
        else pure (some is_ka)

  unfoldable pub serve_request : Run State (Option Bool)
  unfolding answer
  serve_request = do
    alive ← act is_alive
    if alive
        then (do
          (result, buffer) ← read_packet []
          if is_not_positive result then pure none else lift (parse buffer) >>= answer)
        else pure none

  -- The inner loop, on fuel; `none` means that the fuel ran out. `stop k` is the answer of the k-th
  -- call of `stop_requested`, and `polls` counts the calls.
  module _ (stop : ℕ → Bool) where
    unfoldable pub serve : ℕ → Bool → ℕ → Run State ℕ
    serve zero is_ka polls s = none
    serve (suc fuel) false polls s = pure polls s
    serve (suc fuel) true polls s =
        if stop polls
        then pure (polls + 1) s
        else continue (serve_request s) λ next. elim next [
          | none ↦ pure (polls + 1)
          | some is_ka ↦ serve fuel is_ka (polls + 1)
        ]

    -- How a round of the outer loop ends: it goes round again, with the calls of `stop_requested`
    -- made so far, the thread returns, or an exception reaches the handler, behind which the thread
    -- ends too.
    pub data Ending : Type 0 where
      looping : ℕ → Ending
      returned : Ending
      died : Exception → Ending

    -- With the connection that was closed in the round.
    pub record Turn : Type 0 where
      pub ending : Ending
      pub closed : Option State

    unfoldable pub loop_test : ℕ → Ending
    loop_test polls = if stop polls then returned else looping (polls + 1)

    -- The end of the inner loop: the connection is destroyed, also on an exception.
    unfoldable pub after_serve : Option (Result ℕ × State) → Option Turn
    unfolding loop_test
    after_serve none = none
    after_serve (some (ok polls, s)) =
        some (record { ending = loop_test polls; closed = some (cs.close s) })
    after_serve (some (throw e, s)) = some (record { ending = died e; closed = some (cs.close s) })

    -- A round of the outer loop, with what `GetSocket` gave.
    unfoldable pub worker_turn : ℕ → ℕ → Option State → Option Turn
    unfolding after_serve loop_test serve
    worker_turn fuel polls socket =
        if stop polls
        then some (record { ending = returned; closed = Option.map cs.close socket })
        else elim socket [
          | none ↦ some (record { ending = loop_test (polls + 1); closed = none })
          | some s ↦ after_serve (serve fuel true (polls + 1) (cs.set_timeout s))
        ]
