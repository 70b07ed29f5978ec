-- ===== src/Threads/Joins.antt =====
-- The end of main.cpp after a stop: the threads end, the joins return, and the stack is destroyed.
use small_http_server.Base.{
  ◌≡◌, refl, sym, subst, true, false, List, [], ◌∷◌, ◌++◌, Option, some, none, length, All,
  All-append, append_assoc,
}
use small_http_server.Text.{Buffer}
use small_http_server.Net.Socket.{Socket}
use small_http_server.Stack.{get_socket}
use small_http_server.Threads.Ending.{start-Reach-end}
use small_http_server.Threads.{
  Thread, fetching, fetched, serving, looping, ended, testing, joining, returned, Move, has_stack,
  Program, start, test_stop, put_back, leave, HasEnded, advance, tests, joins, moves, Reach, here,
  next,
}

module _ (open_file : Buffer → Option Buffer) (cs : Socket) (directory : Buffer) where
  open cs use {State}

  pub trans_Reach :
      {p q r : Program State}
      → Reach open_file cs directory p q
      → Reach open_file cs directory q r
      → Reach open_file cs directory p r
  trans_Reach before here = before
  trans_Reach before (next rest s) = next (trans_Reach before rest) s

  -- The program at the joins after a stop, with these threads.
  record Joins (p₀ p : Program State) (threads : List (Thread State)) : Type 0 where
    reached : Reach open_file cs directory p₀ p
    stopped : p.stopping ≡ true
    at_joins : p.main ≡ joining
    threads_are : p.threads ≡ threads

  one_step :
      (p₀ p : Program State) (before after : List (Thread State)) (t : Thread State)
      (m : Move State)
      → advance open_file cs directory true p.stack t ≡ some m
      → Joins p₀ p (before ++ t ∷ after)
      → Joins p₀ (put_back open_file cs directory before after m p) (before ++ m.thread ∷ after)
  unfolding put_back has_stack
  one_step p₀ p before after t m run j = record {
    reached =
        next j.reached
          (moves before after t m (rw j.at_joins refl) j.threads_are (rw j.stopped run) refl);
    stopped = j.stopped;
    at_joins = j.at_joins;
    threads_are = refl;
  }

  abbrev Ends : Program State → List (Thread State) → List (Thread State) → Type 0
  Ends p₀ before after = (q : Program State) × Joins p₀ q (before ++ ended ∷ after)

  thread-Ends :
      (p₀ p : Program State) (before after : List (Thread State)) (t : Thread State)
      → Joins p₀ p (before ++ t ∷ after)
      → Ends p₀ before after
  unfolding advance get_socket
  thread-Ends p₀ p before after ended j = (p, j)
  thread-Ends p₀ p before after looping j = (_, one_step p₀ p before after looping _ refl j)
  thread-Ends p₀ p before after (fetched s) j = (_, one_step p₀ p before after (fetched s) _ refl j)
  thread-Ends p₀ p before after fetching j = (
    _,
    one_step p₀ _ before after (fetched none) _ refl (one_step p₀ p before after fetching _ refl j),
  )
  thread-Ends p₀ p before after (serving false s) j = (
    _,
    one_step p₀ _ before after looping _ refl
        (one_step p₀ p before after (serving false s) _ refl j),
  )
  thread-Ends p₀ p before after (serving true s) j = (
    _,
    one_step p₀ _ before after looping _ refl
        (one_step p₀ p before after (serving true s) _ refl j),
  )

  threads_end :
      (p₀ p : Program State) (before after : List (Thread State))
      → All (HasEnded open_file cs directory) before
      → Joins p₀ p (before ++ after)
      → (q : Program State) × (threads : List (Thread State)) × All
          (HasEnded open_file cs directory)
          threads
        × Joins p₀ q threads
  threads_end p₀ p before [] h j =
      (p, before ++ [], All-append (HasEnded open_file cs directory) before [] h tt, j)
  threads_end p₀ p before (t ∷ after) h j =
      let (q, k) = thread-Ends p₀ p before after t j in
      threads_end p₀ q (before ++ ended ∷ []) after
        (All-append (HasEnded open_file cs directory) before (ended ∷ []) h (refl, tt))
        (subst (Joins p₀ q) (sym (append_assoc before (ended ∷ []) after)) k)

  -- Whatever the threads are doing when the main thread tests its loop after a stop, the program can
  -- go on to the end of its block, and there every thread has ended and every connection that was
  -- accepted has been closed.
  pub stopped_returns :
      (p : Program State)
      → Reach open_file cs directory start p
      → p.main ≡ testing
      → p.stopping ≡ true
      → (q : Program State) × Reach open_file cs directory p q
        × (q.main ≡ returned)
        × All (HasEnded open_file cs directory) q.threads
        × (q.accepted ≡ length q.closed)
  unfolding test_stop leave
  stopped_returns p before at stopped =
      let (q, threads, all, j) = threads_end p (test_stop p) [] p.threads tt (record {
        reached = next here (tests at refl);
        stopped = stopped;
        at_joins = rw stopped refl;
        threads_are = refl;
      }) in
      let r : Reach open_file cs directory p (leave open_file cs directory returned q) =
        next j.reached (
          joins j.at_joins (subst (All (HasEnded open_file cs directory)) (sym j.threads_are) all)
            refl) in
      let (ends, closed) =
        (start-Reach-end open_file cs directory (leave open_file cs directory returned q)
            (trans_Reach before r)).0
          refl in
      (leave open_file cs directory returned q, r, refl, ends, closed)
