-- ===== src/Program/Main/Listens.antt =====
-- What becomes of the listening sockets that the set-up of main.cpp makes, on every branch.
use small_http_server.Base.{
  subst, ℕ, ◌+◌, ◌≡◌, refl, true, false, inl, inr, Bool-cases, List, [], ◌∷◌, ◌++◌, Option, some,
  arith,
}
use small_http_server.Base.Int.{ℤ, is_negative, is_minus_one, is_zero}
use small_http_server.Exceptions.{Exception, Result, ok, throw}
use small_http_server.Run.{Run}
use small_http_server.Text.{Buffer}
use small_http_server.Net.System.{
  System, Trace, closes, epoll_create, ctx_new, ctx_use_certificate, epoll_add,
}
use small_http_server.Net.ServerSocket as Sockets
use small_http_server.Net.ServerSocket.{ServerSocket}
use small_http_server.Net.ServerSocket.Setup.{
  Created, bad_address, bad_bind, listening, create-Created,
}
use small_http_server.Net.TlsContext
use small_http_server.Net.TlsContext.{TlsContext}
use small_http_server.Net.Server
use small_http_server.Net.Server.{Server}
use small_http_server.Net.Server.Descriptors.{holders, holders-append}
use small_http_server.Options
use small_http_server.Options.{ServerOption, Key, Json}
use small_http_server.Program.Setup.{release, add_option}
use small_http_server.Program.Main.{unwind, add_sockets, make_server, prepare, set_up}
use small_http_server.Run.Outcomes.{After, done-After, continue-After, if-After}
use small_http_server.Program.Main.Balance.{
  listens, IsBalanced, Same, one, Returned, destroy_socket-Returned, destroy-Returned,
}

-- How many of the sockets of the server that the set-up leaves hold a descriptor.
abbrev pub held : ℤ → Result (Server × Option Buffer) → ℕ
held fd (ok (server, directory)) = holders fd server.server_sockets
held fd (throw e) = 0

module _ (system : System) (fd : ℤ) (fd_valid : is_negative fd ≡ false) where
  load-Same :
      (ctx : ℤ) (count : ℕ) (t : Trace)
      → IsBalanced fd count t
      → After (Same fd count) (TlsContext.load_certificate system ctx t)
  unfolding TlsContext.load_certificate
  load-Same ctx count t b =
      if-After (Same fd count) (is_zero (system.answer t (ctx_use_certificate ctx))) _ _ _
        (done-After (Same fd count) _ _ b) (done-After (Same fd count) _ _ b)

  context-Same :
      (count : ℕ) (t : Trace)
      → IsBalanced fd count t
      → After (Same fd count) (TlsContext.create system true t)
  unfolding TlsContext.create TlsContext.set_up
  context-Same count t b =
      let ctx = system.answer t (ctx_new true) in
      if-After (Same fd count) (is_zero ctx) _ _ _ (done-After (Same fd count) _ _ b) (
        continue-After (Same fd count) (Same fd count)
          (TlsContext.load_certificate system ctx (ctx_new true ∷ t)) _
          (load-Same ctx count (ctx_new true ∷ t) b)
          (λ loaded u c.
            if-After (Same fd count) loaded _ _ u (done-After (Same fd count) _ _ c)
              (done-After (Same fd count) _ _ c))
          (λ e u c. c))

  -- What an outcome holds of the descriptor.
  abbrev Held : Result Server → Trace → Type 0
  Held (ok server) = IsBalanced fd (holders fd server.server_sockets)
  Held (throw e) = IsBalanced fd 0

  epoll-Held :
      (context : TlsContext.TlsContext) (t : Trace)
      → IsBalanced fd 0 t
      → After Held (Server.create_epoll system context t)
  unfolding Server.create_epoll TlsContext.destroy
  epoll-Held context t b =
      if-After Held (is_minus_one (system.answer t epoll_create)) _ _ _
        (done-After Held (throw _) _ b) (done-After Held (ok _) _ b)

  create-Held : (t : Trace) → IsBalanced fd 0 t → After Held (Server.create system t)
  unfolding Server.create
  create-Held t b =
      continue-After (Same fd 0) Held (TlsContext.create system true t) _ (context-Same 0 t b)
        (λ context u c. epoll-Held context u c) (λ e u c. c)

  -- A socket that is made is held once more.
  abbrev Made : ℕ → Result ServerSocket → Trace → Type 0
  Made count (ok s) = IsBalanced fd (one fd s + count)
  Made count (throw e) = IsBalanced fd count

  Created-Made :
      (option : ServerOption) (count : ℕ) (t u : Trace) (x : Result ServerSocket)
      → IsBalanced fd count t
      → Created system option.ip_address option.family_address option.port false option.is_secure t
          x u
      → Made count x u
  Created-Made option count t _ _ b (bad_address a) = b
  Created-Made option count t _ _ b (bad_bind a f) = b
  Created-Made option count t _ _ b (listening a f) = omega (arith, b)

  -- The body of the loop: on an exception the sockets that the server holds are as before.
  abbrev Grown : Server → Result Server → Trace → Type 0
  Grown server (ok next) = IsBalanced fd (holders fd next.server_sockets)
  Grown server (throw e) = IsBalanced fd (holders fd server.server_sockets)

  release-Grown :
      (server : Server) (s : ServerSocket) (t : Trace)
      → IsBalanced fd (one fd s + holders fd server.server_sockets) t
      → After (Grown server) (release system s (Server.add_socket system server s t))
  unfolding release Server.add_socket Server.add_descriptor Sockets.move
  release-Grown server s t b =
      elim (Bool-cases (is_minus_one (system.answer t (epoll_add server.epoll s.socket_fd)))) [
        | inl failed ↦ rw failed (
            continue-After (Returned fd (holders fd server.server_sockets)) (Grown server)
              (Sockets.destroy system s (epoll_add server.epoll s.socket_fd ∷ t)) _
              (destroy_socket-Returned system fd fd_valid s (holders fd server.server_sockets)
                (epoll_add server.epoll s.socket_fd ∷ t) b)
              (λ _ u c. done-After (Grown server) (throw _) u c) (λ e u c. absurd c))
        | inr added ↦
            let held : IsBalanced fd (holders fd (server.server_sockets ++ s ∷ [])) t =
              omega (arith, b, holders-append fd server.server_sockets s) in
            rw added (done-After (Grown server) (ok _) _ held)
      ]

  add_option-Grown :
      (server : Server) (option : ServerOption) (t : Trace)
      → IsBalanced fd (holders fd server.server_sockets) t
      → After (Grown server) (add_option system server option t)
  unfolding add_option
  add_option-Grown server option t b =
      let (x, u, run, c) =
        create-Created system option.ip_address option.family_address option.port false
          option.is_secure t in
      let count = holders fd server.server_sockets in
      continue-After (Made count) (Grown server)
        (Sockets.create system option.ip_address option.family_address option.port false
          option.is_secure t)
        _ (x, u, run, Created-Made option count t u x b c)
        (λ s v made. release-Grown server s v made) (λ e v kept. kept)

  unwind_from :
      {A : Type 0} (H : Result A → Trace → Type 0) (server : Server) (next : Server → Run Trace A)
      (x : Result Server) (t : Trace)
      → ((e : Exception) (u : Trace) → IsBalanced fd 0 u → H (throw e) u)
      → Grown server x t
      → ((grown : Server) (u : Trace)
          → IsBalanced fd (holders fd grown.server_sockets) u
          → After H (next grown u))
      → After H (unwind system server next (some (x, t)))
  unfolding unwind
  unwind_from H server next (ok grown) t thrown g k = k grown t g
  unwind_from H server next (throw e) t thrown g k =
      let left : IsBalanced fd (holders fd server.server_sockets + 0) t = omega (arith, g) in
      continue-After (Returned fd 0) H (Server.destroy system server t) _
        (destroy-Returned system fd fd_valid server 0 t left)
        (λ _ u c. done-After H (throw e) u (thrown e u c)) (λ x u c. absurd c)

  add_sockets-Held :
      (options : List ServerOption) (server : Server) (t : Trace)
      → IsBalanced fd (holders fd server.server_sockets) t
      → After Held (add_sockets system server options t)
  unfolding add_sockets
  add_sockets-Held [] server t b = done-After Held (ok server) t b
  add_sockets-Held (option ∷ options) server t b =
      let (x, u, run, g) = add_option-Grown server option t b in
      let (y, v, run', held) =
        unwind_from Held server (λ grown. add_sockets system grown options) x u (λ e w c. c) g
          (λ grown w c. add_sockets-Held options grown w c) in
      (y, v, rw run run', held)

  -- The set-up's outcome.
  abbrev SetUpHeld : Result (Server × Option Buffer) → Trace → Type 0
  SetUpHeld x = IsBalanced fd (held fd x)

  prepare-SetUpHeld :
      (options : List ServerOption) (t : Trace)
      → IsBalanced fd 0 t
      → After SetUpHeld (prepare system options t)
  unfolding prepare make_server
  prepare-SetUpHeld options t b =
      continue-After Held SetUpHeld (make_server system options t) _
        (continue-After Held Held (Server.create system t) _ (create-Held t b)
          (λ server u c. add_sockets-Held options server u c) (λ e u c. c))
        (λ server u c. done-After SetUpHeld (ok _) u c) (λ e u c. c)

  module _ (json : Json) where
    set_up-SetUpHeld :
        (keys : List Key) (file : Option (Result json.Value)) (t : Trace)
        → IsBalanced fd 0 t
        → After SetUpHeld (set_up system json keys file t)
    unfolding set_up
    set_up-SetUpHeld keys file t b =
        continue-After (Same fd 0) SetUpHeld (some (Options.create json keys file, t)) _
          (done-After (Same fd 0) (Options.create json keys file) t b)
          (λ options u c. prepare-SetUpHeld options u c) (λ e u c. c)

-- The set-up of main returns, with a server or with an exception. A descriptor that is not negative
-- has then been made to listen as often as it has been closed and is held by the server's sockets;
-- so every socket that listens is held where there is no exception, and every socket that was made
-- to listen is closed again where there is one.
pub set_up-listens :
    (system : System) (json : Json) (keys : List Key) (file : Option (Result json.Value)) (fd : ℤ)
    → is_negative fd ≡ false
    → (outcome : Result (Server × Option Buffer)) × (after : Trace) × (set_up system json keys file
          []
        ≡ some (outcome, after))
      × (listens fd after ≡ closes fd after + held fd outcome)
set_up-listens system json keys file fd n = set_up-SetUpHeld system fd n json keys file [] refl

-- The same of a run that is given.
pub set_up-balance :
    (system : System) (json : Json) (keys : List Key) (file : Option (Result json.Value)) (fd : ℤ)
    (outcome : Result (Server × Option Buffer)) (after : Trace)
    → is_negative fd ≡ false
    → set_up system json keys file [] ≡ some (outcome, after)
    → listens fd after ≡ closes fd after + held fd outcome
set_up-balance system json keys file fd outcome after n run =
    let (x, t, run', balance) = set_up-listens system json keys file fd n in
    let same : x ≡ outcome = cc (run, run') in
    let ends : t ≡ after = cc (run, run') in
    subst (λ (u : Trace). listens fd u ≡ closes fd u + held fd outcome) ends
      (subst (λ y. listens fd t ≡ closes fd t + held fd y) same balance)
