-- ===== src/Threads/Whole.antt =====
-- The function main of main.cpp as a whole: the set-up, the loop that takes connections from the
-- server, the threads, the end of the block and the handler.
pub mod Finish
pub mod Ends
use mathlib.Core.Option
use small_http_server.Base.{ℕ, ◌≡◌, Bool, true, Option, none, some, List, []}
use small_http_server.Exceptions.{Exception, Result, ok, throw}
use small_http_server.Text.{Buffer}
use small_http_server.Options.{Key, Json}
use small_http_server.Net.Socket.{Socket}
use small_http_server.Net.System.{System, Trace}
use small_http_server.Net.Acceptor.{Connection}
use small_http_server.Net.Server
use small_http_server.Net.Server.{Server, wait_loop}
use small_http_server.Program.Main.{set_up}
use small_http_server.Threads.{waiting, returned, threw, Program, start, add_client, leave, Step}

module _ (system : System) (open_file : Buffer → Option Buffer) (cs : Socket)
    (made : Connection → cs.State) where
  open cs use {State}

  -- The threads with the calls that the server makes in WaitClients: its result is what is added to
  -- the stack, and the exception that it throws leaves the block and is then caught. Its calls of
  -- stop_requested answer `true` only where a stop has been requested by then. All other steps make
  -- none of these calls.
  pub data Joint (server : Server) (directory : Buffer) (first : Trace)
      : Option Exception → Program State → Trace → Type 0 where
    begins : Joint server directory first none start first
    steps :
        {caught : Option Exception} {p q : Program State} {t : Trace}
        → Joint server directory first caught p t
        → Step open_file cs directory p q
        → ((p.main ≡ waiting) → q.main ≡ waiting)
        → Joint server directory first caught q t
    waits :
        {p : Program State} {t : Trace} (stop : ℕ → Bool) (fuel : ℕ) (c : Option Connection)
        (u : Trace)
        → Joint server directory first none p t
        → p.main ≡ waiting
        → ((k : ℕ) → stop k ≡ true → p.stopping ≡ true)
        → wait_loop system stop server fuel 0 t ≡ some (ok c, u)
        → Joint server directory first none (add_client (Option.map made c) p) u
    wait_throws :
        {p : Program State} {t : Trace} (stop : ℕ → Bool) (fuel : ℕ) (e : Exception) (u : Trace)
        → Joint server directory first none p t
        → p.main ≡ waiting
        → ((k : ℕ) → stop k ≡ true → p.stopping ≡ true)
        → wait_loop system stop server fuel 0 t ≡ some (throw e, u)
        → Joint server directory first (some e) (leave open_file cs directory threw p) u

  -- The ways in which main comes to its `return`, with the calls made and the exception that its
  -- handler has caught: the set-up throws; the block ends behind the joins; or WaitClients throws.
  -- At the end of the block, and where WaitClients throws, the server is destroyed.
  module _ (json : Json) (keys : List Key) (file : Option (Result json.Value)) where
    pub data Finishes (after : Trace) : Option Exception → Type 0 where
      set_up_fails :
          (e : Exception)
          → set_up system json keys file [] ≡ some (throw e, after)
          → Finishes after (some e)
      block_ends :
          (server : Server) (directory : Buffer) (first t : Trace) (p : Program State)
          → set_up system json keys file [] ≡ some (ok (server, some directory), first)
          → Joint server directory first none p t
          → p.main ≡ returned
          → Server.destroy system server t ≡ some (ok tt, after)
          → Finishes after none
      block_throws :
          (server : Server) (directory : Buffer) (first t : Trace) (p : Program State)
          (e : Exception)
          → set_up system json keys file [] ≡ some (ok (server, some directory), first)
          → Joint server directory first (some e) p t
          → Server.destroy system server t ≡ some (ok tt, after)
          → Finishes after (some e)
