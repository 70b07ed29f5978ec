-- ===== src/Net/Server/Lifetime.antt =====
-- A server that is made, given sockets and destroyed, as in main.cpp.
use small_http_server.Base.{
  ◌+◌, ◌≡◌, refl, ap, ◌∙◌, sym, false, List, [], ◌∷◌, ◌++◌, Option, none, some, arith, append_assoc,
  append-nil,
}
use small_http_server.Base.Int.{ℤ, is_negative}
use small_http_server.Exceptions.{Result, ok, throw}
use small_http_server.Run.{Run, pure, continue, ◌>>=◌}
use small_http_server.Net.System.{System, Trace, closes}
use small_http_server.Net.ServerSocket as Sockets
use small_http_server.Net.ServerSocket.{ServerSocket}
use small_http_server.Net.Server.Descriptors.{holders, destroy_socket-closes, negative_other}
use small_http_server.Net.Server.Class.{ServerClass, server_class}

module _ (system : System) (class : ServerClass system) where
  open class use {
    Object, create, destroy, add_socket, sockets, create_owns, add_socket_owns, destroy_closes,
  }

  -- Each socket is given to the server, and what is left of it is destroyed.
  abbrev pub give_one : Object → ServerSocket → Run Trace Object
  give_one o s = add_socket o s >>= λ given. Sockets.destroy system given.1 >>= λ _. pure given.0

  abbrev pub give_all : Object → List ServerSocket → Run Trace Object
  give_all o [] = pure o
  give_all o (s ∷ ss) = give_one o s >>= λ next. give_all next ss

  abbrev pub lifetime : List ServerSocket → Run Trace (Unit {0})
  lifetime ss = create >>= λ o. give_all o ss >>= destroy

  -- A server that owns these sockets, made by calls that have closed none of their descriptors.
  record Owns (o : Object) (ss : List ServerSocket) (fd : ℤ) (trace after : Trace) : Type 0 where
    owned : sockets o ≡ ss
    quiet : closes fd after ≡ closes fd trace

  given_one :
      (o next : Object) (s : ServerSocket) (fd : ℤ) (trace after : Trace)
      (given : Option (Result (Object × ServerSocket) × Trace))
      → is_negative fd ≡ false
      → add_socket o s trace ≡ given
      → continue given (λ given. Sockets.destroy system given.1 >>= λ _. pure given.0)
        ≡ some (ok next, after)
      → Owns next (sockets o ++ s ∷ []) fd trace after
  given_one o next s fd trace after none n g e = cc
  given_one o next s fd trace after (some (throw x, t)) n g e = cc
  given_one o next s fd trace after (some (ok (o', left), t)) n g e =
      let (owned, gone, quiet) = add_socket_owns o o' s left trace t g in
      let (later, run, c) = destroy_socket-closes system left fd t n in
      let silent = rw (negative_other left.socket_fd fd gone n) at c in
      let calm : closes fd later ≡ closes fd trace = omega (arith, silent, quiet fd) in
      let done : some (ok o', later) ≡ some (ok next, after) = rw run at e in
      let same : o' ≡ next = cc done in
      let ends : later ≡ after = cc done in
      record { owned = ap sockets (sym same) ∙ owned; quiet = ap (closes fd) (sym ends) ∙ calm }

  given_more :
      (s : ServerSocket) (ss : List ServerSocket) (o next : Object) (fd : ℤ) (trace after : Trace)
      (one : Option (Result Object × Trace))
      → is_negative fd ≡ false
      → give_one o s trace ≡ one
      → ((middle : Object) (t : Trace)
          → give_all middle ss t ≡ some (ok next, after)
          → Owns next (sockets middle ++ ss) fd t after)
      → continue one (λ middle. give_all middle ss) ≡ some (ok next, after)
      → Owns next (sockets o ++ s ∷ ss) fd trace after
  given_more s ss o next fd trace after none n g later e = cc
  given_more s ss o next fd trace after (some (throw x, t)) n g later e = cc
  given_more s ss o next fd trace after (some (ok middle, t)) n g later e =
      let first = given_one o middle s fd trace t (add_socket o s trace) n refl g in
      let rest = later middle t e in
      record {
        owned =
            rest.owned
            ∙ ap (λ (x : List ServerSocket). x ++ ss) first.owned
            ∙ append_assoc (sockets o) (s ∷ []) ss;
        quiet = rest.quiet ∙ first.quiet;
      }

  given_all :
      (ss : List ServerSocket) (o next : Object) (fd : ℤ) (trace after : Trace)
      → is_negative fd ≡ false
      → give_all o ss trace ≡ some (ok next, after)
      → Owns next (sockets o ++ ss) fd trace after
  given_all [] o next fd trace after n e =
      let same : o ≡ next = cc e in
      let ends : trace ≡ after = cc e in
      record {
        owned = ap sockets (sym same) ∙ sym (append-nil (sockets o));
        quiet = ap (closes fd) (sym ends);
      }
  given_all (s ∷ ss) o next fd trace after n e =
      given_more s ss o next fd trace after (give_one o s trace) n refl
        (λ middle t h. given_all ss middle next fd t after n h) e

  destroyed :
      (fd : ℤ) (ss : List ServerSocket) (trace after : Trace)
      (given : Option (Result Object × Trace))
      → is_negative fd ≡ false
      → ((o : Object) (t : Trace) → given ≡ some (ok o, t) → Owns o ss fd trace t)
      → continue given destroy ≡ some (ok tt, after)
      → closes fd after ≡ holders fd ss + closes fd trace
  destroyed fd ss trace after none n h e = cc
  destroyed fd ss trace after (some (throw x, t)) n h e = cc
  destroyed fd ss trace after (some (ok o, t)) n h e =
      let (later, run, c) = destroy_closes o fd t n in
      let own : Owns o ss fd trace t = h o t refl in
      let closed : closes fd later ≡ holders fd ss + closes fd trace =
        omega (arith, c, own.quiet, ap (holders fd) own.owned) in
      let done : some (ok tt, later) ≡ some (ok tt, after) = rw run at e in
      let ends : later ≡ after = cc done in ap (closes fd) (sym ends) ∙ closed

  made :
      (fd : ℤ) (ss : List ServerSocket) (trace after : Trace)
      (first : Option (Result Object × Trace))
      → is_negative fd ≡ false
      → create trace ≡ first
      → continue first (λ o. give_all o ss >>= destroy) ≡ some (ok tt, after)
      → closes fd after ≡ holders fd ss + closes fd trace
  made fd ss trace after none n g e = cc
  made fd ss trace after (some (throw x, t)) n g e = cc
  made fd ss trace after (some (ok o, t)) n g e =
      let (empty, quiet) = create_owns o trace t g in
      destroyed fd ss trace after (give_all o ss t) n
        (λ next u h.
          let own = given_all ss o next fd t u n h in
          record {
            owned = own.owned ∙ ap (λ (x : List ServerSocket). x ++ ss) empty;
            quiet = own.quiet ∙ quiet fd;
          })
        e

  pub lifetime-closes :
      (fd : ℤ) (ss : List ServerSocket) (trace after : Trace)
      → is_negative fd ≡ false
      → lifetime ss trace ≡ some (ok tt, after)
      → closes fd after ≡ holders fd ss + closes fd trace
  lifetime-closes fd ss trace after n e = made fd ss trace after (create trace) n refl e

-- Where a server is made, given sockets and destroyed without an exception, a descriptor that is not
-- negative has been closed as often as the sockets hold it: that of each socket once, and no other.
pub server_lifetime-closes :
    (system : System) (fd : ℤ) (ss : List ServerSocket) (trace after : Trace)
    → is_negative fd ≡ false
    → lifetime system (server_class system) ss trace ≡ some (ok tt, after)
    → closes fd after ≡ holders fd ss + closes fd trace
server_lifetime-closes system fd ss trace after n e =
    lifetime-closes system (server_class system) fd ss trace after n e
