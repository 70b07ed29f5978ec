-- ===== src/Worker/Descriptors.antt =====
-- What becomes of a connection's descriptor and of its SSL object in the function Worker.
use small_http_server.Base.{
  ℕ, ◌+◌, ◌≡◌, refl, sym, ap, subst, ◌∙◌, Bool, false, Option, none, some, arith, length,
}
use small_http_server.Base.Int.{ℤ, is_minus_one, is_zero, minus_one, ℤ_eq_iff}
use small_http_server.Exceptions.{Result, ok}
use small_http_server.Text.{Buffer}
use small_http_server.Net.Transport.{Transport}
use small_http_server.Net.System.{System, closes, ssl_frees}
use small_http_server.Net.ClientSocket
use small_http_server.Net.ClientSocket.{ClientSocket}
use small_http_server.Net.TlsSocket
use small_http_server.Net.TlsSocket.{TlsSocket}
use small_http_server.Net.Sockets.{
  Object, with_stream, client_socket, tls_socket, client_set_timeout, client_is_alive, client_close,
  tls_set_timeout, tls_is_alive, tls_close,
}
use small_http_server.Program.{to_list}
use small_http_server.Program.Conservation.{worker_turn-Closes}
use small_http_server.Worker.Serve.{Turn, worker_turn}
use small_http_server.Worker.Kept.{ClosedKept, worker_turn-ClosedKept}

one_closed : {A : Type 0} (o : Option A) → length (to_list o) ≡ 1 → (a : A) × (o ≡ some a)
one_closed none h = absurd (omega arith)
one_closed (some a) h = (a, refl)

module _ (system : System) (t : Transport) (open_file : Buffer → Option Buffer) (directory : Buffer)
    (stop : ℕ → Bool) where
  -- An object that has been read or written has the same descriptor and has made no calls on it.
  with_stream-same :
      {A B : Type 0} (o o' : Object system t A) (b : B) (r : Option (Result B × t.State))
      → with_stream system t o r ≡ some (ok b, o')
      → (o'.this ≡ o.this) × (o'.trace ≡ o.trace)
  with_stream-same o o' b none e = cc
  with_stream-same o o' b (some (r, s)) e =
      let same : record o { stream = s } ≡ o' = cc e in
      (
        sym (ap (λ (x : Object system t _). x.this) same),
        sym (ap (λ (x : Object system t _). x.trace) same),
      )

  -- An object that has closed no descriptor and freed no SSL object since `o`.
  abbrev Untouched : {A : Type 0} → Object system t A → Object system t A → Type 0
  Untouched o o' =
      (o'.this ≡ o.this)
      × ((fd : ℤ) → closes fd o'.trace ≡ closes fd o.trace)
      × ((ssl : ℤ) → ssl_frees ssl o'.trace ≡ ssl_frees ssl o.trace)

  Untouched-refl : {A : Type 0} (o : Object system t A) → Untouched o o
  Untouched-refl o = (refl, λ fd. refl, λ ssl. refl)

  Untouched-trans :
      {A : Type 0} (o p q : Object system t A) → Untouched o p → Untouched p q → Untouched o q
  Untouched-trans o p q (a, b, c) (a', b', c') = (a' ∙ a, λ fd. b' fd ∙ b fd, λ ssl. c' ssl ∙ c ssl)

  with_stream-Untouched :
      {A B : Type 0} (o p q : Object system t A) (b : B) (r : Option (Result B × t.State))
      → with_stream system t p r ≡ some (ok b, q)
      → Untouched o p
      → Untouched o q
  with_stream-Untouched o p q b r e u =
      let (this, trace) = with_stream-same p q b r e in
      Untouched-trans o p q u (this, λ fd. ap (closes fd) trace, λ ssl. ap (ssl_frees ssl) trace)

  client_closed :
      (o : Object system t ClientSocket) (fuel polls : ℕ)
      (turn : Turn open_file (client_socket system t) directory stop)
      → worker_turn open_file (client_socket system t) directory stop fuel polls (some o)
        ≡ some turn
      → ClosedKept open_file (client_socket system t) directory stop (Untouched o) turn
  unfolding client_set_timeout client_is_alive ClientSocket.set_timeout ClientSocket.is_alive
  client_closed o fuel polls turn =
      worker_turn-ClosedKept open_file (client_socket system t) directory (Untouched o)
        (λ message p q size written u. with_stream-Untouched o p q size _ written u)
        (λ p q size buffer read_it u. with_stream-Untouched o p q (size, buffer) _ read_it u)
        (λ p u.
          Untouched-trans o p (client_is_alive system t p).1 u (refl, λ fd. refl, λ ssl. refl))
        stop fuel polls o turn (Untouched-refl o) (refl, λ fd. refl, λ ssl. refl)

  tls_closed :
      (o : Object system t TlsSocket) (fuel polls : ℕ)
      (turn : Turn open_file (tls_socket system t) directory stop)
      → worker_turn open_file (tls_socket system t) directory stop fuel polls (some o) ≡ some turn
      → ClosedKept open_file (tls_socket system t) directory stop (Untouched o) turn
  unfolding tls_set_timeout tls_is_alive TlsSocket.set_timeout TlsSocket.is_alive
  tls_closed o fuel polls turn =
      worker_turn-ClosedKept open_file (tls_socket system t) directory (Untouched o)
        (λ message p q size written u. with_stream-Untouched o p q size _ written u)
        (λ p q size buffer read_it u. with_stream-Untouched o p q (size, buffer) _ read_it u)
        (λ p u. Untouched-trans o p (tls_is_alive system t p).1 u (refl, λ fd. refl, λ ssl. refl))
        stop fuel polls o turn (Untouched-refl o) (refl, λ fd. refl, λ ssl. refl)

  client_close-closes :
      (s : Object system t ClientSocket)
      → is_minus_one s.this.socket_fd ≡ false
      → ((client_close system t s).this.socket_fd ≡ minus_one)
        × (closes s.this.socket_fd (client_close system t s).trace
            ≡ closes s.this.socket_fd s.trace + 1)
  unfolding client_close ClientSocket.close_socket
  client_close-closes s h = (rw h refl, ground (arith, ℤ_eq_iff s.this.socket_fd s.this.socket_fd))

  tls_close-frees :
      (s : Object system t TlsSocket)
      → is_zero s.this.ssl ≡ false
      → (ssl_frees s.this.ssl (tls_close system t s).trace ≡ ssl_frees s.this.ssl s.trace + 1)
        × ((fd : ℤ) → closes fd (tls_close system t s).trace ≡ closes fd s.trace)
  unfolding tls_close TlsSocket.destroy
  tls_close-frees s h = (ground (arith, ℤ_eq_iff s.this.ssl s.this.ssl), λ fd. rw h refl)

  -- A round that is given a plain connection whose descriptor is open destroys it, however the round
  -- ends; the descriptor has then been closed once more than before, and is forgotten.
  pub client_turn-closes :
      (o : Object system t ClientSocket) (fuel polls : ℕ)
      (turn : Turn open_file (client_socket system t) directory stop)
      → is_minus_one o.this.socket_fd ≡ false
      → worker_turn open_file (client_socket system t) directory stop fuel polls (some o)
        ≡ some turn
      → (c : Object system t ClientSocket) × (turn.closed ≡ some c)
        × (c.this.socket_fd ≡ minus_one)
        × (closes o.this.socket_fd c.trace ≡ closes o.this.socket_fd o.trace + 1)
  client_turn-closes o fuel polls turn open_one e =
      let (c, at) = one_closed turn.closed (
        worker_turn-Closes open_file (client_socket system t) directory stop fuel polls (some o)
          turn e) in
      let (s, (this, kept, frees), is_c) = client_closed o fuel polls turn e c at in
      let same : s.this.socket_fd ≡ o.this.socket_fd =
        ap (λ (x : ClientSocket). x.socket_fd) this in
      let (forgotten, closed) =
        client_close-closes s (subst (λ (x : ℤ). is_minus_one x ≡ false) (sym same) open_one) in
      (
        c,
        at,
        rw is_c forgotten,
        rw is_c (
            subst (λ (x : ℤ). closes x (client_close system t s).trace ≡ closes x s.trace + 1) same
              closed
            ∙ ap (λ (n : ℕ). n + 1) (kept o.this.socket_fd)),
      )

  -- A round that is given a TLS connection frees its SSL object once and closes no descriptor: that
  -- of the connection is left open.
  pub tls_turn-closes :
      (o : Object system t TlsSocket) (fuel polls : ℕ)
      (turn : Turn open_file (tls_socket system t) directory stop)
      → is_zero o.this.ssl ≡ false
      → worker_turn open_file (tls_socket system t) directory stop fuel polls (some o) ≡ some turn
      → (c : Object system t TlsSocket) × (turn.closed ≡ some c)
        × (ssl_frees o.this.ssl c.trace ≡ ssl_frees o.this.ssl o.trace + 1)
        × ((fd : ℤ) → closes fd c.trace ≡ closes fd o.trace)
  tls_turn-closes o fuel polls turn some_ssl e =
      let (c, at) = one_closed turn.closed (
        worker_turn-Closes open_file (tls_socket system t) directory stop fuel polls (some o) turn
          e) in
      let (s, (this, kept, frees), is_c) = tls_closed o fuel polls turn e c at in
      let same : s.this.ssl ≡ o.this.ssl = ap (λ (x : TlsSocket). x.ssl) this in
      let (freed, others) =
        tls_close-frees s (subst (λ (x : ℤ). is_zero x ≡ false) (sym same) some_ssl) in
      (
        c,
        at,
        rw is_c (
            subst (λ (x : ℤ). ssl_frees x (tls_close system t s).trace ≡ ssl_frees x s.trace + 1)
              same freed
            ∙ ap (λ (n : ℕ). n + 1) (frees o.this.ssl)),
        λ fd. rw is_c (others fd ∙ kept fd),
      )
