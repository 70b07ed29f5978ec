-- ===== src/Net/Acceptor/Outcome.antt =====
-- What an acceptor gives, and what it leaves open.
use small_http_server.Base.{
  ◌≡◌, refl, ◌∙◌, inl, inr, Bool, true, false, Option, none, some, if◌then◌else◌, Bool-cases, ◌∷◌,
}
use small_http_server.Base.Int.{ℤ, pos, is_negative, is_zero, is_not_positive}
use small_http_server.Exceptions.{ok}
use small_http_server.Run.{Run, pure, ◌>>=◌}
use small_http_server.Net.System as Sys
use small_http_server.Net.System.{System, Trace, Call, perform, closes}
use small_http_server.Net.TlsSocket
use small_http_server.Net.TlsSocket.{TlsSocket, create_ssl, ensure_ssl, finish_accept}
use small_http_server.Net.Acceptor.{
  Connection, client, tls, Acceptor, finish_tls, accept_tls, wrap, apply,
}

-- A computation that returns a value with a property, and closes no descriptor.
abbrev pub Quiet {ℓ} : {A : Type ℓ} → Run Trace A → (A → Type ℓ) → Type ℓ
Quiet {A = A} m P =
    (trace : Trace)
    → (a : A) × (after : Trace) × (m trace ≡ some (ok a, after))
      × P a
      × ((fd : ℤ) → closes fd after ≡ closes fd trace)

pub >>=-Quiet :
    {A B : Type 0} {P : A → Type 0} {Q : B → Type 0} (m : Run Trace A) (f : A → Run Trace B)
    → Quiet m P
    → ((a : A) → P a → Quiet (f a) Q)
    → Quiet (m >>= f) Q
>>=-Quiet m f h k trace =
    let (a, middle, e, p, c) = h trace in
    let (b, after, e', q, d) = k a p middle in (b, after, rw e e', q, λ fd. d fd ∙ c fd)

pub pure-Quiet : {A : Type 0} {P : A → Type 0} (a : A) → P a → Quiet (pure a) P
pure-Quiet a p trace = (a, trace, refl, p, λ fd. refl)

pub if-Quiet :
    {A : Type 0} {P : A → Type 0} (b : Bool) (m n : Run Trace A)
    → Quiet m P
    → Quiet n P
    → Quiet (if b then m else n) P
if-Quiet true m n h k = h
if-Quiet false m n h k = k

abbrev pub Any {ℓ} : {A : Type ℓ} → A → Type ℓ
Any a = Unit

module _ (system : System) where
  perform-Quiet :
      (call : Call)
      → ((fd : ℤ) (trace : Trace) → closes fd (call ∷ trace) ≡ closes fd trace)
      → Quiet (perform system call) Any
  perform-Quiet call h trace = (system.answer trace call, call ∷ trace, refl, tt, λ fd. h fd trace)

  -- A TLS socket on a descriptor.
  abbrev pub On : ℤ → TlsSocket → Type 0
  On fd s = s.socket_fd ≡ fd

  create_ssl-Quiet : (s : TlsSocket) → Quiet (create_ssl system s) (On s.socket_fd)
  unfolding create_ssl
  create_ssl-Quiet s trace = (_, _, refl, refl, λ fd. refl)

  pub create-Quiet : (fd context : ℤ) → Quiet (TlsSocket.create system fd context) (On fd)
  unfolding TlsSocket.create
  create-Quiet fd context =
      create_ssl-Quiet (record { ssl = pos 0; socket_fd = fd; context = context })

  pub destroy-Quiet : (s : TlsSocket) → Quiet (TlsSocket.destroy system s) Any
  unfolding TlsSocket.destroy
  destroy-Quiet s =
      if-Quiet (is_zero s.ssl) _ _ (pure-Quiet tt tt) (λ trace. (_, _, refl, tt, λ fd. refl))

  finish_accept-Quiet :
      (s : TlsSocket) (r : ℤ) → Quiet (finish_accept system s r) (λ p. On s.socket_fd p.0)
  unfolding finish_accept TlsSocket.shutdown
  finish_accept-Quiet s r =
      if-Quiet (is_not_positive r) _ _
        (>>=-Quiet (TlsSocket.shutdown system s) _
          (if-Quiet {P = Any} (is_zero s.ssl) _ _ (pure-Quiet tt tt)
            (λ trace. (_, _, refl, tt, λ fd. refl)))
          (λ _ _ trace. (_, _, refl, refl, λ fd. refl)))
        (pure-Quiet (s, true) refl)

  ensure_ssl-Quiet : (s : TlsSocket) → Quiet (ensure_ssl system s) (On s.socket_fd)
  unfolding ensure_ssl
  ensure_ssl-Quiet s =
      if-Quiet (is_zero s.ssl) _ _ (create_ssl-Quiet s) (pure-Quiet {P = On s.socket_fd} s refl)

  pub accept-Quiet : (s : TlsSocket) → Quiet (TlsSocket.accept system s) (λ p. On s.socket_fd p.0)
  unfolding TlsSocket.accept
  accept-Quiet s = >>=-Quiet (ensure_ssl system s) _ (ensure_ssl-Quiet s) λ s' on.
      >>=-Quiet (perform system (Sys.ssl_accept s'.ssl)) _
        (perform-Quiet (Sys.ssl_accept s'.ssl) (λ fd trace. refl))
        λ r _ trace.
          let (p, after, e, on', c) = finish_accept-Quiet s' r trace in (p, after, e, on' ∙ on, c)

  -- The descriptor of a connection.
  abbrev pub descriptor : Connection → ℤ
  descriptor (client c) = c.socket_fd
  descriptor (tls s) = s.socket_fd

  -- No connection, or one on the descriptor.
  abbrev pub IsGiven : ℤ → Option Connection → Type 0
  IsGiven fd none = Unit
  IsGiven fd (some c) = descriptor c ≡ fd

  finish_tls-Quiet :
      (fd : ℤ) (local s : TlsSocket) (accepted : Bool)
      → On fd s
      → Quiet (finish_tls system local (s, accepted)) (IsGiven fd)
  unfolding finish_tls
  finish_tls-Quiet fd local s true on =
      >>=-Quiet (TlsSocket.destroy system local) _ (destroy-Quiet local)
        (λ _ _. pure-Quiet {P = IsGiven fd} (some (tls s)) on)
  finish_tls-Quiet fd local s false on =
      >>=-Quiet (TlsSocket.destroy system s) _ (destroy-Quiet s) λ _ _.
        >>=-Quiet (TlsSocket.destroy system local) _ (destroy-Quiet local)
          (λ _ _. pure-Quiet {P = IsGiven fd} none tt)

  accept_tls-Quiet : (fd context : ℤ) → Quiet (accept_tls system fd context) (IsGiven fd)
  unfolding accept_tls
  accept_tls-Quiet fd context =
      >>=-Quiet (TlsSocket.create system fd context) _ (create-Quiet fd context) λ local _.
        >>=-Quiet (TlsSocket.create system fd context) _ (create-Quiet fd context) λ s on.
          >>=-Quiet (TlsSocket.accept system s) _ (accept-Quiet s)
            λ r on'. finish_tls-Quiet fd local r.0 r.1 (on' ∙ on)

  wrap-Quiet : (context : Option ℤ) (fd : ℤ) → Quiet (wrap system context fd) (IsGiven fd)
  unfolding wrap
  wrap-Quiet none fd = pure-Quiet {P = IsGiven fd} (some (client (record { socket_fd = fd }))) refl
  wrap-Quiet (some context) fd = accept_tls-Quiet fd context

  -- What the call of accept answers.
  abbrev pub accepted : Acceptor → Trace → ℤ
  accepted a trace = system.answer trace (Sys.accept a.master)

  -- The acceptor always returns, and closes no descriptor.
  pub apply-Quiet :
      (a : Acceptor) (trace : Trace)
      → (c : Option Connection) × (after : Trace) × (apply system a trace ≡ some (ok c, after))
        × IsGiven (accepted a trace) c
        × ((fd : ℤ) → closes fd after ≡ closes fd trace)
  unfolding apply
  apply-Quiet a trace =
      if-Quiet (is_negative (accepted a trace)) _ _
        (pure-Quiet {P = IsGiven (accepted a trace)} none tt)
        (wrap-Quiet a.context (accepted a trace)) (Sys.accept a.master ∷ trace)

  -- Without TLS every client that is accepted is given, and a failed accept gives the null pointer.
  pub apply-plain :
      (master : ℤ) (trace : Trace)
      → (after : Trace) × (apply system (record { master = master; context = none }) trace
          ≡ some (
            ok (
                if is_negative (system.answer trace (Sys.accept master))
                then none
                else some
                    (client (record { socket_fd = system.answer trace (Sys.accept master) }))),
            after,
          ))
  unfolding apply wrap
  apply-plain master trace =
      elim (Bool-cases (is_negative (system.answer trace (Sys.accept master)))) [
        | inl failed ↦ (Sys.accept master ∷ trace, rw failed)
        | inr good ↦ (Sys.accept master ∷ trace, rw good)
      ]
