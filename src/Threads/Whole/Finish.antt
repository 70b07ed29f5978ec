-- ===== src/Threads/Whole/Finish.antt =====
-- What main of main.cpp has done when it returns.
use mathlib.Core.Option
use small_http_server.Base.{
  ◌+◌, ◌≡◌, refl, sym, ap, ◌∙◌, ◌⊎◌, inl, inr, false, arith, List, [], ◌∷◌, Option, none, some,
  length, All,
}
use small_http_server.Base.Int.{ℤ, is_negative}
use small_http_server.Exceptions.{Exception, Result, ok, throw, what}
use small_http_server.Text.{Buffer, codes}
use small_http_server.Logger.{Clock, Logs, text}
use small_http_server.Logger.Format.{with_line, log-with_line}
use small_http_server.Options.{Key, Json}
use small_http_server.Net.Socket.{Socket}
use small_http_server.Net.System.{System, Trace, closes}
use small_http_server.Net.Acceptor.{Connection}
use small_http_server.Net.Server
use small_http_server.Net.Server.{Server}
use small_http_server.Net.Server.Descriptors.{holders, destroy-closes}
use small_http_server.Net.Server.Quiet.{wait_loop-IsQuiet}
use small_http_server.Program.Main.{set_up, report}
use small_http_server.Program.Main.SetUp.{IsSetUp, set_up-IsSetUp}
use small_http_server.Program.Main.Balance.{listens}
use small_http_server.Program.Main.Listens.{set_up-balance}
use small_http_server.Threads.{
  returned, threw, Program, start, request_stop, put_back, leave, HasEnded, Step, signalled, adds,
  tests, joins, throws, moves, Reach, here, next,
}
use small_http_server.Threads.Lifecycle.{in_service}
use small_http_server.Threads.Ending.{start-Reach-end}
use small_http_server.Threads.Whole.{
  Joint, begins, steps, waits, wait_throws, Finishes, set_up_fails, block_ends, block_throws,
}

module _ (system : System) (open_file : Buffer → Option Buffer) (cs : Socket)
    (made : Connection → cs.State) where
  open cs use {State}

  module _ (server : Server) (directory : Buffer) (first : Trace) where
    abbrev JointAt : Option Exception → Program State → Trace → Type 0
    JointAt caught p t = Joint system open_file cs made server directory first caught p t

    pub Joint-Reach :
        (caught : Option Exception) (p : Program State) (t : Trace)
        → JointAt caught p t
        → Reach open_file cs directory start p
    Joint-Reach caught p t begins = here
    Joint-Reach caught q t (steps {p = p} j s h) = next (Joint-Reach caught p t j) s
    Joint-Reach caught q u (waits {p} {t} stop fuel c u' j at flag e) =
        next (Joint-Reach none p t j) (adds (Option.map made c) at refl)
    Joint-Reach caught q u (wait_throws {p} {t} stop fuel e u' j at flag r) =
        next (Joint-Reach none p t j) (throws at refl)

    pub Joint-closes :
        (caught : Option Exception) (p : Program State) (t : Trace) (fd : ℤ)
        → JointAt caught p t
        → closes fd t ≡ closes fd first
    Joint-closes caught p t fd begins = refl
    Joint-closes caught q t fd (steps {p = p} j s h) = Joint-closes caught p t fd j
    Joint-closes caught q u fd (waits {p} {t} stop fuel c u' j at flag e) =
        wait_loop-IsQuiet system stop server fuel 0 t _ u e fd ∙ Joint-closes none p t fd j
    Joint-closes caught q u fd (wait_throws {p} {t} stop fuel e u' j at flag r) =
        wait_loop-IsQuiet system stop server fuel 0 t _ u r fd ∙ Joint-closes none p t fd j

    -- Where the stack is gone the main thread stands where it stood.
    threw-Step :
        (p q : Program State) → Step open_file cs directory p q → p.main ≡ threw → q.main ≡ threw
    unfolding request_stop put_back
    threw-Step p q (signalled e) h = rw e h
    threw-Step p q (adds socket at e) h = cc (at, h)
    threw-Step p q (tests at e) h = cc (at, h)
    threw-Step p q (joins at all e) h = cc (at, h)
    threw-Step p q (throws at e) h = cc (at, h)
    threw-Step p q (moves before after thread move there is_at a e) h = rw e h

    Joint-threw :
        (caught : Option Exception) (p : Program State) (t : Trace) (e : Exception)
        → JointAt caught p t
        → caught ≡ some e
        → p.main ≡ threw
    unfolding leave
    Joint-threw caught p t e begins c = cc
    Joint-threw caught q t e (steps {p = p} j s h) c =
        threw-Step p q s (Joint-threw caught p t e j c)
    Joint-threw caught q u e (waits stop fuel d u' j at flag r) c = cc
    Joint-threw caught q u e (wait_throws stop fuel e' u' j at flag r) c = refl

  module _ (json : Json) (keys : List Key) (file : Option (Result json.Value)) where
    -- A server that has been set up and has served until the block ended behind the joins, with the
    -- calls made.
    pub record Served (after : Trace) : Type 0 where
      pub server : Server
      pub directory : Buffer
      pub first : Trace
      pub last : Trace
      pub program : Program State
      pub starts : set_up system json keys file [] ≡ some (ok (server, some directory), first)
      pub run : Joint system open_file cs made server directory first none program last
      pub returns : program.main ≡ returned
      pub ends : Server.destroy system server last ≡ some (ok tt, after)
      pub is_set_up : IsSetUp system json keys file server (some directory)
      pub threads_ended : All (HasEnded open_file cs directory) program.threads
      pub all_closed : program.accepted ≡ length program.closed
      pub listeners_closed : (fd : ℤ) → is_negative fd ≡ false → closes fd after ≡ listens fd first

    -- An exception of the set-up, or of WaitClients in a server that has been set up.
    pub data Failed (after : Trace) (e : Exception) : Type 0 where
      in_set_up :
          set_up system json keys file [] ≡ some (throw e, after)
          → ((fd : ℤ) → is_negative fd ≡ false → closes fd after ≡ listens fd after)
          → Failed after e
      in_block :
          (server : Server) (directory : Buffer) (first last : Trace) (program : Program State)
          → set_up system json keys file [] ≡ some (ok (server, some directory), first)
          → Joint system open_file cs made server directory first (some e) program last
          → program.main ≡ threw
          → Server.destroy system server last ≡ some (ok tt, after)
          → program.accepted ≡ in_service program.threads + length program.closed
          → ((fd : ℤ) → is_negative fd ≡ false → closes fd after ≡ listens fd first)
          → Failed after e

    pub listeners-closed :
        (server : Server) (directory : Buffer) (caught : Option Exception) (p : Program State)
        (first last after : Trace)
        → set_up system json keys file [] ≡ some (ok (server, some directory), first)
        → Joint system open_file cs made server directory first caught p last
        → Server.destroy system server last ≡ some (ok tt, after)
        → (fd : ℤ) → is_negative fd ≡ false
        → closes fd after ≡ listens fd first
    listeners-closed server directory caught p first last after s j d fd n =
        let (later, run, c) = destroy-closes system server fd last n in
        let same : later ≡ after = cc (run, d) in
        let counted : closes fd after ≡ holders fd server.server_sockets + closes fd last =
          ap (closes fd) (sym same) ∙ c in
        let quiet = Joint-closes server directory first caught p last fd j in
        let balance =
          set_up-balance system json keys file fd (ok (server, some directory)) first n s in
        omega (arith, counted, quiet, balance)

    pub block_end-Served :
        (server : Server) (directory : Buffer) (first t after : Trace) (p : Program State)
        → set_up system json keys file [] ≡ some (ok (server, some directory), first)
        → Joint system open_file cs made server directory first none p t
        → p.main ≡ returned
        → Server.destroy system server t ≡ some (ok tt, after)
        → Served after
    block_end-Served server directory first t after p s j at d =
        let (ended, closed) =
          (start-Reach-end open_file cs directory p
              (Joint-Reach server directory first none p t j)).0
            at in
        record {
          server = server;
          directory = directory;
          first = first;
          last = t;
          program = p;
          starts = s;
          run = j;
          returns = at;
          ends = d;
          is_set_up = set_up-IsSetUp system json keys file server (some directory) [] first s;
          threads_ended = ended;
          all_closed = closed;
          listeners_closed = listeners-closed server directory none p first t after s j d;
        }

    -- What the handler writes.
    abbrev pub Reported : Exception → Type 0
    Reported e =
        (clock : Clock) (logs : Logs)
        → report clock e logs
          ≡ ok (
              with_line clock (codes " Error ")
                (text (codes "Exception ") ∷ text (codes (what e)) ∷ []) logs)

    report-Reported : (e : Exception) → Reported e
    unfolding report
    report-Reported e clock logs =
        (log-with_line clock (text (codes "Exception ") ∷ text (codes (what e)) ∷ []) logs).1

    -- When main returns, either its handler has caught nothing: the server was set up from the
    -- options, and its run has come to the end of the block, where every thread has ended and every
    -- accepted connection is closed. Or it has caught the exception that the set-up threw, or that
    -- of WaitClients, where the connections that are not closed are those that a thread still holds;
    -- the log has one line more with what the exception says. In each case every descriptor that is not
    -- negative has been closed as often as the set-up has made it listen.
    pub Finishes-Served :
        (after : Trace) (caught : Option Exception)
        → Finishes system open_file cs made json keys file after caught
        → ((caught ≡ none) × Served after)
          ⊎ ((e : Exception) × (caught ≡ some e) × Failed after e × Reported e)
    Finishes-Served after _ (set_up_fails e s) = inr (
      e,
      refl,
      in_set_up s
          (λ fd n. omega (arith, set_up-balance system json keys file fd (throw e) after n s)),
      report-Reported e,
    )
    Finishes-Served after _ (block_throws server directory first t p e s j d) =
        let at = Joint-threw server directory first (some e) p t e j refl in
        let reached = Joint-Reach server directory first (some e) p t j in
        inr (
          e,
          refl,
          in_block server directory first t p s j at d
              ((start-Reach-end open_file cs directory p reached).1 at)
              (listeners-closed server directory (some e) p first t after s j d),
          report-Reported e,
        )
    Finishes-Served after _ (block_ends server directory first t p s j at d) =
        inl (refl, block_end-Served server directory first t after p s j at d)
