-- ===== src/Program/Setup.antt =====
-- The set-up of main.cpp: a server socket for each option.
use small_http_server.Base.{
  ◌≡◌, ◌≢◌, inl, inr, Bool-cases, refl, sym, ap, ◌∙◌, false, List, [], ◌∷◌, ◌++◌, Option, none,
  some, map, append_assoc, append-nil,
}
use small_http_server.Base.Int.{is_negative, is_minus_one}
use small_http_server.Exceptions.{Exception, Result, ok, throw}
use small_http_server.Run.{Run, pure, continue, ◌>>=◌}
use small_http_server.Net.System.{System, Trace, epoll_add}
use small_http_server.Net.ServerSocket
use small_http_server.Net.ServerSocket.{ServerSocket}
use small_http_server.Net.ServerSocket.Setup.{
  Created, bad_address, bad_bind, listening, create-Created,
}
use small_http_server.Net.Server
use small_http_server.Net.Server.{Server}
use small_http_server.Options.{ServerOption}

module _ (system : System) where
  -- The end of the loop's body: the local socket is destroyed, also where AddSocket throws.
  unfoldable pub release :
      ServerSocket
      → Option (Result (Server × ServerSocket) × Trace)
      → Option (Result Server × Trace)
  unfolding ServerSocket.destroy
  release s none = none
  release s (some (ok (server, left), trace)) =
      continue (ServerSocket.destroy system left trace) (λ _. pure server)
  release s (some (throw e, trace)) =
      continue (ServerSocket.destroy system s trace) (λ _ after. some (throw e, after))

  unfoldable pub add_option : Server → ServerOption → Run Trace Server
  unfolding release ServerSocket.create Server.add_socket
  add_option server option =
      ServerSocket.create system option.ip_address option.family_address option.port false
        option.is_secure
      >>= λ s trace. release s (Server.add_socket system server s trace)

  unfoldable pub add_options : Server → List ServerOption → Run Trace Server
  unfolding add_option
  add_options server [] = pure server
  add_options server (option ∷ options) =
      add_option server option >>= λ next. add_options next options

  -- A server that holds one socket more.
  pub record OneMore (server next : Server) (option : ServerOption) : Type 0 where
    pub socket : ServerSocket
    pub added : next.server_sockets ≡ server.server_sockets ++ socket ∷ []
    pub same_security : socket.secure ≡ option.is_secure
    pub same_epoll : next.epoll ≡ server.epoll

  -- Where AddSocket throws, so does the body.
  release_throw :
      (s : ServerSocket) (e : Exception) (trace after : Trace) (next : Server)
      → release s (some (throw e, trace)) ≢ some (ok next, after)
  unfolding release ServerSocket.destroy
  release_throw s e trace after next h = elim (Bool-cases (is_negative s.socket_fd)) [
    | inl closed_before ↦ cc (rw closed_before at h)
    | inr open_one ↦ cc (rw open_one at h)
  ]

  release_added :
      (server next : Server) (s : ServerSocket) (trace after : Trace)
      → release s (Server.add_socket system server s trace) ≡ some (ok next, after)
      → next ≡ record server { server_sockets = server.server_sockets ++ s ∷ [] }
  unfolding release ServerSocket.destroy Server.add_socket Server.add_descriptor ServerSocket.move
  release_added server next s trace after h =
      elim (Bool-cases (is_minus_one (system.answer trace (epoll_add server.epoll s.socket_fd)))) [
        | inl failed ↦ absurd (release_throw s _ _ after next (rw failed at h))
        | inr added ↦
            let done : some (
              ok (record server { server_sockets = server.server_sockets ++ s ∷ [] }),
              epoll_add server.epoll s.socket_fd ∷ trace,
            )
                ≡ some (ok next, after) =
              rw added at h in
            cc done
      ]

  add_option-Created :
      (server next : Server) (option : ServerOption) (trace middle after : Trace)
      (r : Result ServerSocket)
      → Created system option.ip_address option.family_address option.port false option.is_secure
          trace r middle
      → continue (some (r, middle)) (λ s t. release s (Server.add_socket system server s t))
        ≡ some (ok next, after)
      → OneMore server next option
  add_option-Created server next option trace _ after _ (bad_address a) e = cc
  add_option-Created server next option trace _ after _ (bad_bind a b) e = cc
  add_option-Created server next option trace _ after _ (listening a b) e =
      let same = release_added server next _ _ after e in
      record {
        socket = record { socket_fd = _; secure = option.is_secure };
        added = ap (λ (n : Server). n.server_sockets) same;
        same_security = refl;
        same_epoll = ap (λ (n : Server). n.epoll) same;
      }

  add_option-OneMore :
      (server next : Server) (option : ServerOption) (trace after : Trace)
      → add_option server option trace ≡ some (ok next, after)
      → OneMore server next option
  unfolding add_option
  add_option-OneMore server next option trace after e =
      let (r, middle, run, c) =
        create-Created system option.ip_address option.family_address option.port false
          option.is_secure trace in
      add_option-Created server next option trace middle after r c (rw run at e)

  -- A server with more sockets, one for each option.
  pub record MoreSockets (server next : Server) (options : List ServerOption) : Type 0 where
    pub sockets : List ServerSocket
    pub added : next.server_sockets ≡ server.server_sockets ++ sockets
    pub same_security :
        map (λ (s : ServerSocket). s.secure) sockets
        ≡ map (λ (o : ServerOption). o.is_secure) options
    pub same_epoll : next.epoll ≡ server.epoll

  MoreSockets-cons :
      (server middle next : Server) (option : ServerOption) (options : List ServerOption)
      → OneMore server middle option
      → MoreSockets middle next options
      → MoreSockets server next (option ∷ options)
  MoreSockets-cons server middle next option options o m = record {
    sockets = o.socket ∷ m.sockets;
    added =
        m.added
        ∙ ap (λ (ss : List ServerSocket). ss ++ m.sockets) o.added
        ∙ append_assoc server.server_sockets (o.socket ∷ []) m.sockets;
    same_security = cc (o.same_security, m.same_security);
    same_epoll = m.same_epoll ∙ o.same_epoll;
  }

  MoreSockets-nil : (server next : Server) → server ≡ next → MoreSockets server next []
  MoreSockets-nil server next e = record {
    sockets = [];
    added = ap (λ (n : Server). n.server_sockets) (sym e) ∙ sym (append-nil server.server_sockets);
    same_security = refl;
    same_epoll = ap (λ (n : Server). n.epoll) (sym e);
  }

  MoreSockets-step :
      (server next : Server) (option : ServerOption) (options : List ServerOption)
      (trace after : Trace) (one : Option (Result Server × Trace))
      → ((middle : Server) (t : Trace)
          → add_options middle options t ≡ some (ok next, after)
          → MoreSockets middle next options)
      → add_option server option trace ≡ one
      → continue one (λ middle. add_options middle options) ≡ some (ok next, after)
      → MoreSockets server next (option ∷ options)
  MoreSockets-step server next option options trace after none h f e = cc
  MoreSockets-step server next option options trace after (some (throw x, t)) h f e = cc
  MoreSockets-step server next option options trace after (some (ok middle, t)) h f e =
      MoreSockets-cons server middle next option options
        (add_option-OneMore server middle option trace t f) (h middle t e)

  -- Where the set-up ends without an exception, the server holds one socket more for each option, in
  -- the order of the options, and each is secure exactly where its option is.
  pub add_options-MoreSockets :
      (options : List ServerOption) (server next : Server) (trace after : Trace)
      → add_options server options trace ≡ some (ok next, after)
      → MoreSockets server next options
  unfolding add_options
  add_options-MoreSockets [] server next trace after e = MoreSockets-nil server next (cc e)
  add_options-MoreSockets (option ∷ options) server next trace after e =
      MoreSockets-step server next option options trace after (add_option server option trace)
        (λ middle t f. add_options-MoreSockets options middle next t after f) refl e
