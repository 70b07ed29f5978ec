-- ===== src/Threads/Whole/Ends.antt =====
-- That main of main.cpp comes to its end behind a stop.
use small_http_server.Base.{false, none, length, All, ◌≡◌, ◌≢◌, refl, true, Option, some, List, []}
use small_http_server.Exceptions.{Exception, Result, ok}
use small_http_server.Text.{Buffer}
use small_http_server.Base.Int.{ℤ, pos, is_negative}
use small_http_server.Options.{Key, Json}
use small_http_server.Net.Socket.{Socket}
use small_http_server.Net.System.{System, Trace, closes}
use small_http_server.Net.Acceptor.{Connection}
use small_http_server.Net.Server
use small_http_server.Net.Server.{Server}
use small_http_server.Program.Main.Balance.{listens}
use small_http_server.Net.Server.Descriptors.{destroy-closes}
use small_http_server.Program.Main.{set_up}
use small_http_server.Threads.{
  returned, HasEnded, waiting, testing, Program, request_stop, test_stop, put_back, leave, Step,
  signalled, adds, tests, joins, throws, moves, Reach, here, next,
}
use small_http_server.Threads.Joins.{stopped_returns}
use small_http_server.Threads.Whole.{Joint, steps, Finishes, block_ends}
use small_http_server.Threads.Whole.Finish.{Joint-Reach, listeners-closed}

-- A stop has been requested, and the main thread waits for no client any more.
abbrev pub IsLate : {A : Type 0} → Program A → Type 0
IsLate p = (p.stopping ≡ true) × (p.main ≢ waiting)

module _ (open_file : Buffer → Option Buffer) (cs : Socket) (directory : Buffer) where
  open cs use {State}

  Step-IsLate : (p q : Program State) → Step open_file cs directory p q → IsLate p → IsLate q
  unfolding request_stop test_stop put_back leave
  Step-IsLate p q (signalled e) (s, m) = rw e (refl, m)
  Step-IsLate p q (adds socket at e) (s, m) = absurd (m at)
  Step-IsLate p q (tests at e) (s, m) = rw e (s, rw s (λ w. cc w))
  Step-IsLate p q (joins at all e) (s, m) = rw e (s, λ w. cc w)
  Step-IsLate p q (throws at e) (s, m) = absurd (m at)
  Step-IsLate p q (moves before after thread move h e a e') (s, m) = rw e' (s, m)

module _ (system : System) (open_file : Buffer → Option Buffer) (cs : Socket)
    (made : Connection → cs.State) where
  open cs use {State}

  module _ (server : Server) (directory : Buffer) (first t : Trace)
      (caught : Option Exception) where
    -- The threads' steps make no calls of the server's.
    Reach-Joint :
        (p q : Program State)
        → Joint system open_file cs made server directory first caught p t
        → IsLate p
        → Reach open_file cs directory p q
        → Joint system open_file cs made server directory first caught q t × IsLate q
    Reach-Joint p q j late here = (j, late)
    Reach-Joint p r j late (next {q} before s) =
        let (j', late') = Reach-Joint p q j late before in
        (steps j' s (λ at. absurd (late'.1 at)), Step-IsLate open_file cs directory q r s late')

  module _ (json : Json) (keys : List Key) (file : Option (Result json.Value)) where
    -- However the server was set up, and whatever the threads are doing in a state of the run in
    -- which the main thread tests its loop after a stop, the run can go on from that very state to
    -- the end of the block and to main's `return`, and the server makes no call before its
    -- destructor: at the end every thread has ended, every accepted connection is closed, every
    -- descriptor that is not negative has been closed as often as the set-up has made it listen,
    -- and the handler has caught nothing.
    pub Joint-Finishes :
        (server : Server) (directory : Buffer) (first t : Trace) (p : Program State)
        → set_up system json keys file [] ≡ some (ok (server, some directory), first)
        → Joint system open_file cs made server directory first none p t
        → p.main ≡ testing
        → p.stopping ≡ true
        → (q : Program State) × (after : Trace) × Reach open_file cs directory p q
          × Joint system open_file cs made server directory first none q t
          × (q.main ≡ returned)
          × (Server.destroy system server t ≡ some (ok tt, after))
          × Finishes system open_file cs made json keys file after none
          × All (HasEnded open_file cs directory) q.threads
          × (q.accepted ≡ length q.closed)
          × ((fd : ℤ) → is_negative fd ≡ false → closes fd after ≡ listens fd first)
    Joint-Finishes server directory first t p s j at stopped =
        let (q, r, ends, all, closed) =
          stopped_returns open_file cs directory p
            (Joint-Reach system open_file cs made server directory first none p t j) at stopped in
        let (j', _) =
          Reach-Joint server directory first t none p q j (stopped, λ w. cc (at, w)) r in
        let (after, run, _) = destroy-closes system server (pos 0) t refl in
        (
          q,
          after,
          r,
          j',
          ends,
          run,
          block_ends server directory first t q s j' ends run,
          all,
          closed,
          listeners-closed system open_file cs made json keys file server directory none q first t
              after s j' run,
        )
