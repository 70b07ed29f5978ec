-- ===== src/Threads/Lifecycle.antt =====
-- What the program does to its connections, seen from outside: how many it has accepted, and how many
-- are waiting on the stack, in service with a thread, and closed.
use small_http_server.Base.{ℕ, ◌+◌, ◌≡◌, subst, List, [], ◌∷◌, arith, length}
use small_http_server.Program.{held}
use small_http_server.Program.Conservation.{live}
use small_http_server.Threads.{Thread, fetched, serving, Program}

-- The connections that a thread holds.
abbrev pub holds : {A : Type 0} → Thread A → ℕ
holds (fetched socket) = held socket
holds (serving is_ka s) = 1
holds _ = 0

abbrev pub in_service : {A : Type 0} → List (Thread A) → ℕ
in_service [] = 0
in_service (t ∷ ts) = holds t + in_service ts

pub record Life : Type 0 where
  pub accepted : ℕ
  pub waiting : ℕ
  pub in_service : ℕ
  pub closed : ℕ

-- The abstract program. A connection arrives, is taken into service and is closed, or is closed
-- where it waits; nothing else happens to it.
pub data Event (l m : Life) : Type 0 where
  arrives :
      m.accepted ≡ l.accepted + 1
      → m.waiting ≡ l.waiting + 1
      → m.in_service ≡ l.in_service
      → m.closed ≡ l.closed
      → Event l m
  taken :
      m.accepted ≡ l.accepted
      → l.waiting ≡ m.waiting + 1
      → m.in_service ≡ l.in_service + 1
      → m.closed ≡ l.closed
      → Event l m
  served :
      m.accepted ≡ l.accepted
      → m.waiting ≡ l.waiting
      → l.in_service ≡ m.in_service + 1
      → m.closed ≡ l.closed + 1
      → Event l m
  discarded :
      m.accepted ≡ l.accepted
      → l.waiting ≡ m.waiting + 1
      → m.in_service ≡ l.in_service
      → m.closed ≡ l.closed + 1
      → Event l m

pub data Events (l : Life) : Life → Type 0 where
  none_yet : Events l l
  followed : {m n : Life} → Events l m → Event m n → Events l n

abbrev pub life : {A : Type 0} → Program A → Life
life p = record {
  accepted = p.accepted;
  waiting = live p.stack;
  in_service = in_service p.threads;
  closed = length p.closed;
}

-- The connections accepted are those that wait, those in service and those closed.
abbrev pub IsComplete : Life → Type 0
IsComplete l = l.accepted ≡ l.waiting + l.in_service + l.closed

Event-IsComplete : {l m : Life} → Event l m → IsComplete l → IsComplete m
Event-IsComplete (arrives a w s c) h = omega arith
Event-IsComplete (taken a w s c) h = omega arith
Event-IsComplete (served a w s c) h = omega arith
Event-IsComplete (discarded a w s c) h = omega arith

pub Events-IsComplete : {l m : Life} → Events l m → IsComplete l → IsComplete m
Events-IsComplete none_yet h = h
Events-IsComplete (followed before e) h = Event-IsComplete e (Events-IsComplete before h)

pub trans_Events : {l m n : Life} → Events l m → Events m n → Events l n
trans_Events before none_yet = before
trans_Events before (followed rest e) = followed (trans_Events before rest) e

pub same_life :
    (l m : Life)
    → m.accepted ≡ l.accepted
    → m.waiting ≡ l.waiting
    → m.in_service ≡ l.in_service
    → m.closed ≡ l.closed
    → Events l m
same_life l m a w s c = let e : l ≡ m = cc in subst (λ (n : Life). Events l n) e none_yet
