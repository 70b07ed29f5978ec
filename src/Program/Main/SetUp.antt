-- ===== src/Program/Main/SetUp.antt =====
-- What the set-up of main.cpp has made where it is not left by an exception.
use small_http_server.Base.{
  ◌≡◌, ◌≢◌, true, subst, inl, inr, Bool-cases, refl, ap, ◌∙◌, sym, List, [], ◌∷◌, ◌++◌, Option,
  none, some, map,
}
use small_http_server.Base.Int.{is_minus_one}
use small_http_server.Exceptions.{Exception, Result, ok, throw}
use small_http_server.Run.{Run, pure, continue}
use small_http_server.Text.{Buffer}
use small_http_server.Net.System.{System, Trace, epoll_create}
use small_http_server.Net.Server
use small_http_server.Net.Server.{Server}
use small_http_server.Net.TlsContext
use small_http_server.Net.ServerSocket.{ServerSocket}
use small_http_server.Options
use small_http_server.Options.{ServerOption, Key, Json, get_option}
use small_http_server.Program.Setup.{add_option, add_options, add_options-MoreSockets}
use small_http_server.Program.Main.{
  first_directory, unwind, add_sockets, make_server, prepare, set_up,
}

module _ (system : System) where
  throws_on :
      {A : Type 0} (o : Option (Result (Unit {0}) × Trace)) (e : Exception) (a : A) (after : Trace)
      → continue o (λ u t. some (throw e, t)) ≢ some (ok a, after)
  throws_on none e a after h = cc
  throws_on (some (ok u, t)) e a after h = cc
  throws_on (some (throw x, t)) e a after h = cc

  unwind_ok :
      (server next : Server) (after : Trace) (k k' : Server → Run Trace Server)
      (one : Option (Result Server × Trace))
      → ((grown : Server) (t : Trace)
          → k grown t ≡ some (ok next, after)
          → k' grown t ≡ some (ok next, after))
      → unwind system server k one ≡ some (ok next, after)
      → continue one k' ≡ some (ok next, after)
  unfolding unwind
  unwind_ok server next after k k' none h e = cc
  unwind_ok server next after k k' (some (ok grown, t)) h e = h grown t e
  unwind_ok server next after k k' (some (throw x, t)) h e =
      absurd (throws_on (Server.destroy system server t) x next after e)

  -- Without an error the two loops over the options are the same.
  add_sockets-add_options :
      (options : List ServerOption) (server next : Server) (trace after : Trace)
      → add_sockets system server options trace ≡ some (ok next, after)
      → add_options system server options trace ≡ some (ok next, after)
  unfolding add_sockets add_options
  add_sockets-add_options [] server next trace after e = e
  add_sockets-add_options (option ∷ options) server next trace after e =
      unwind_ok server next after _ _ (add_option system server option trace)
        (λ grown t h. add_sockets-add_options options grown next t after h) e

  create_epoll-no_sockets :
      (context : TlsContext.TlsContext) (trace after : Trace) (server : Server)
      → Server.create_epoll system context trace ≡ some (ok server, after)
      → server.server_sockets ≡ []
  unfolding Server.create_epoll TlsContext.destroy
  create_epoll-no_sockets context trace after server e =
      elim (Bool-cases (is_minus_one (system.answer trace epoll_create))) [
        | inl failed ↦ cc (rw failed at e)
        | inr made ↦
            let h = rw made at e in
            let same : record {
              epoll = system.answer trace epoll_create;
              server_sockets = [];
              tls_context = context;
            }
                ≡ server =
              cc h in
            sym (ap (λ (s : Server). s.server_sockets) same)
      ]

  create-no_sockets :
      (after : Trace) (server : Server) (context : Option (Result TlsContext.TlsContext × Trace))
      → continue context (Server.create_epoll system) ≡ some (ok server, after)
      → server.server_sockets ≡ []
  create-no_sockets after server none e = cc
  create-no_sockets after server (some (throw x, t)) e = cc
  create-no_sockets after server (some (ok context, t)) e =
      create_epoll-no_sockets context t after server e

  -- The sockets of a server that is made and given a socket for each option.
  added_to :
      (options : List ServerOption) (after : Trace) (next : Server)
      (made : Option (Result Server × Trace))
      → ((server : Server) (t : Trace) → made ≡ some (ok server, t) → server.server_sockets ≡ [])
      → continue made (λ server. add_sockets system server options) ≡ some (ok next, after)
      → map (λ (s : ServerSocket). s.secure) next.server_sockets
        ≡ map (λ (o : ServerOption). o.is_secure) options
  added_to options after next none h e = cc
  added_to options after next (some (throw x, t)) h e = cc
  added_to options after next (some (ok server, t)) h e =
      let more =
        add_options-MoreSockets system options server next t after
          (add_sockets-add_options options server next t after e) in
      ap (map (λ (s : ServerSocket). s.secure))
        (more.added ∙ ap (λ (ss : List ServerSocket). ss ++ more.sockets) (h server t refl))
      ∙ more.same_security

  prepare_ok :
      (options : List ServerOption) (next : Server) (directory : Option Buffer)
      (trace after : Trace)
      → prepare system options trace ≡ some (ok (next, directory), after)
      → (directory ≡ first_directory options)
        × (map (λ (s : ServerSocket). s.secure) next.server_sockets
            ≡ map (λ (o : ServerOption). o.is_secure) options)
  unfolding prepare make_server Server.create
  prepare_ok options next directory trace after e =
      made_ok (make_server system options trace) refl e
    where
      made_ok :
          (made : Option (Result Server × Trace))
          → make_server system options trace ≡ made
          → continue made (λ server.
            pure {S = Trace} {A = Server × Option Buffer} (server, first_directory options))
            ≡ some (ok (next, directory), after)
          → (directory ≡ first_directory options)
            × (map (λ (s : ServerSocket). s.secure) next.server_sockets
                ≡ map (λ (o : ServerOption). o.is_secure) options)
      made_ok none m h = cc
      made_ok (some (throw x, t)) m h = cc
      made_ok (some (ok server, t)) m h =
          let same : server ≡ next = cc h in
          let named : directory ≡ first_directory options = cc h in
          (
            named,
            subst
                (λ (s : Server).
                  map (λ (s : ServerSocket). s.secure) s.server_sockets
                  ≡ map (λ (o : ServerOption). o.is_secure) options)
                same
                (added_to options t server (Server.create system trace)
                  (λ first u made.
                    create-no_sockets u first (TlsContext.create system true trace) made)
                  m),
          )

  module _ (json : Json) where
    abbrev pub IsSetUp : List Key → Option (Result json.Value) → Server → Option Buffer → Type 0
    IsSetUp keys file server directory =
        (options : List ServerOption) × (Options.create json keys file ≡ ok options)
        × (directory ≡ first_directory options)
        × (map (λ (s : ServerSocket). s.secure) server.server_sockets
            ≡ map (λ (o : ServerOption). o.is_secure) options)

    IsSetUp-options :
        (keys : List Key) (file : Option (Result json.Value)) (options : Result (List ServerOption))
        (server : Server) (directory : Option Buffer) (trace after : Trace)
        → Options.create json keys file ≡ options
        → continue (some (options, trace)) (prepare system) ≡ some (ok (server, directory), after)
        → IsSetUp keys file server directory
    IsSetUp-options keys file (throw x) server directory trace after o e = cc
    IsSetUp-options keys file (ok options) server directory trace after o e =
        let (named, secure) = prepare_ok options server directory trace after e in
        (options, o, named, secure)

    -- Where the set-up of main is not left by an exception, the constructor of Options has given the
    -- options, the server holds a socket for each of them, in their order, secure exactly where the option is, and the threads
    -- are given the directory of the first option; those of the others are not used.
    pub set_up-IsSetUp :
        (keys : List Key) (file : Option (Result json.Value)) (server : Server)
        (directory : Option Buffer) (trace after : Trace)
        → set_up system json keys file trace ≡ some (ok (server, directory), after)
        → IsSetUp keys file server directory
    unfolding set_up
    set_up-IsSetUp keys file server directory trace after e =
        IsSetUp-options keys file (Options.create json keys file) server directory trace after refl
          e
