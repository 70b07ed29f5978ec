-- ===== src/Threads/Progress.antt =====
-- No thread of main.cpp is ever stuck.
use small_http_server.Base.{◌≡◌, ◌≢◌, refl, Bool, true, false, List, ◌∷◌, ◌++◌, Option, none, some}
use small_http_server.Exceptions.{Result, ok, throw}
use small_http_server.Text.{Buffer}
use small_http_server.Net.Socket.{Socket}
use small_http_server.Stack.{Stack}
use small_http_server.Worker.Kept.{serve_request-Keeps}
use small_http_server.Threads.{
  Thread, fetching, fetched, serving, looping, ended, Move, has_stack, Program, after_request,
  advance, put_back, Step, moves,
}

module _ (open_file : Buffer → Option Buffer) (cs : Socket) (directory : Buffer) where
  open cs use {State}

  after_request-returns :
      (stack : Stack State) (a : Result (Option Bool)) (s : State)
      → (m : Move State) × (after_request open_file cs directory stack (some (a, s)) ≡ some m)
  unfolding after_request
  after_request-returns stack (ok none) s = (_, refl)
  after_request-returns stack (ok (some is_ka)) s = (_, refl)
  after_request-returns stack (throw e) s = (_, refl)

  advance-returns :
      (stopping : Bool) (stack : Stack State) (t : Thread State)
      → t ≢ ended
      → (m : Move State) × (advance open_file cs directory stopping stack t ≡ some m)
  unfolding advance
  advance-returns stopping stack fetching h = (_, refl)
  advance-returns true stack (fetched socket) h = (_, refl)
  advance-returns false stack (fetched socket) h = (_, refl)
  advance-returns stopping stack (serving false s) h = (_, refl)
  advance-returns true stack (serving true s) h = (_, refl)
  advance-returns false stack (serving true s) h =
      let (a, s', e, _) =
        serve_request-Keeps open_file cs directory (λ u. Unit) (λ message u u' size e p. tt)
          (λ u u' size buffer e p. tt) (λ u p. tt) s tt in
      let (m, r) = after_request-returns stack a s' in (m, rw e r)
  advance-returns stopping stack looping h = (_, refl)
  advance-returns stopping stack ended h = absurd (h refl)

  -- Wherever the others stand, and whatever its client sends, a thread that has not ended has a move
  -- of its own, both before and behind a stop, and with it the program has a step, as long as the
  -- stack is there.
  pub thread-Step :
      (p : Program State) (before after : List (Thread State)) (t : Thread State)
      → has_stack p.main ≡ true
      → p.threads ≡ before ++ t ∷ after
      → t ≢ ended
      → (m : Move State) × (advance open_file cs directory p.stopping p.stack t ≡ some m)
        × Step open_file cs directory p (put_back open_file cs directory before after m p)
  thread-Step p before after t there at h =
      let (m, run) = advance-returns p.stopping p.stack t h in
      (m, run, moves before after t m there at run refl)
