-- ===== src/Net/Acceptor/Given.antt =====
-- Which connection an acceptor gives.
use small_http_server.Base.{
  ◌≡◌, refl, sym, ◌∙◌, subst, inl, inr, Bool, true, false, Bool-cases, Option, none, some, ◌∷◌,
  if◌then◌else◌,
}
use small_http_server.Base.Int.{ℤ, pos, is_negative, is_zero, is_not_positive}
use small_http_server.Exceptions.{ok}
use small_http_server.Run.{pure, continue, ◌>>=◌}
use small_http_server.Net.System as Sys
use small_http_server.Net.System.{System, Trace, perform, closes}
use small_http_server.Net.TlsSocket
use small_http_server.Net.TlsSocket.{TlsSocket, finish_accept}
use small_http_server.Net.Acceptor.{
  Connection, client, tls, Acceptor, finish_tls, accept_tls, wrap, apply,
}
use small_http_server.Net.Acceptor.Outcome.{
  Quiet, Any, >>=-Quiet, pure-Quiet, if-Quiet, destroy-Quiet,
}

module _ (system : System) where
  -- What comes out of a handshake that has been answered.
  abbrev accepted_or_not : TlsSocket → ℤ → Option Connection
  accepted_or_not s r = if is_not_positive r then none else some (tls s)

  dropped-Quiet : (local s : TlsSocket) → Quiet (finish_tls system local (s, false)) (λ c. c ≡ none)
  unfolding finish_tls
  dropped-Quiet local s = >>=-Quiet (TlsSocket.destroy system s) _ (destroy-Quiet system s) λ _ _.
      >>=-Quiet (TlsSocket.destroy system local) _ (destroy-Quiet system local)
        (λ _ _. pure-Quiet {P = λ c. c ≡ none} none refl)

  given-Quiet :
      (local s : TlsSocket) → Quiet (finish_tls system local (s, true)) (λ c. c ≡ some (tls s))
  unfolding finish_tls
  given-Quiet local s =
      >>=-Quiet (TlsSocket.destroy system local) _ (destroy-Quiet system local)
        (λ _ _. pure-Quiet {P = λ c. c ≡ some (tls s)} (some (tls s)) refl)

  -- The SSL object of a handshake that has failed is freed and forgotten.
  abbrev forgotten : TlsSocket → TlsSocket
  forgotten s = record s { ssl = pos 0 }

  failed-Quiet :
      (s : TlsSocket) (r : ℤ)
      → is_not_positive r ≡ true
      → Quiet (finish_accept system s r) (λ p. p ≡ (forgotten s, false))
  unfolding finish_accept TlsSocket.shutdown
  failed-Quiet s r failed = rw failed (
      >>=-Quiet (TlsSocket.shutdown system s) _
        (if-Quiet {P = Any} (is_zero s.ssl) _ _ (pure-Quiet tt tt)
          (λ trace. (_, _, refl, tt, λ fd. refl)))
        (λ _ _ trace. (_, _, refl, refl, λ fd. refl)))

  finish-Quiet :
      (local s : TlsSocket) (r : ℤ)
      → Quiet (finish_accept system s r >>= finish_tls system local) (λ c. c ≡ accepted_or_not s r)
  unfolding finish_accept
  finish-Quiet local s r = elim (Bool-cases (is_not_positive r)) [
    | inl failed ↦
        subst
          (λ b.
            Quiet (finish_accept system s r >>= finish_tls system local)
              (λ c. c ≡ (if b then none else some (tls s))))
          (sym failed)
          (>>=-Quiet (finish_accept system s r) (finish_tls system local) (failed-Quiet s r failed)
            (λ p e.
              subst (λ p. Quiet (finish_tls system local p) (λ c. c ≡ none)) (sym e)
                (dropped-Quiet local (forgotten s))))
    | inr good ↦ rw good (given-Quiet local s)
  ]

  -- What SSL_new answers behind the calls so far, and these with a new object on a descriptor.
  abbrev pub new_ssl : ℤ → Trace → ℤ
  new_ssl context t = system.answer t (Sys.ssl_new context)

  abbrev pub with_ssl : ℤ → ℤ → Trace → Trace
  with_ssl fd context t = Sys.ssl_set_fd (new_ssl context t) fd ∷ Sys.ssl_new context ∷ t

  module _ (fd context : ℤ) (t : Trace) where
    -- The object of the local `tls` is made first, then that of the one on the heap, and once more
    -- where SSL_new gave null.
    abbrev pub second : Trace
    second = with_ssl fd context t

    abbrev pub third : Trace
    third = with_ssl fd context second

    abbrev pub is_retried : Bool
    is_retried = is_zero (new_ssl context second)

    abbrev pub ssl : Bool → ℤ
    ssl retried = if retried then new_ssl context third else new_ssl context second

    abbrev pub before_accept : Bool → Trace
    before_accept retried = if retried then with_ssl fd context third else third

    abbrev handshake_after : Bool → ℤ
    handshake_after retried = system.answer (before_accept retried) (Sys.ssl_accept (ssl retried))

    abbrev secured_after : Bool → TlsSocket
    secured_after retried = record { ssl = ssl retried; socket_fd = fd; context = context }

    -- What SSL_accept answers, and the socket that it is called on.
    abbrev pub handshake_answer : ℤ
    handshake_answer = handshake_after is_retried

    abbrev pub secured : TlsSocket
    secured = secured_after is_retried

    abbrev made : ℤ → TlsSocket
    made s = record { ssl = s; socket_fd = fd; context = context }

    ensured :
        (retried : Bool)
        → continue
            (continue
              ((if retried
                  then TlsSocket.create_ssl system (made (new_ssl context second))
                  else pure (made (new_ssl context second)))
                third)
              (λ s. perform system (Sys.ssl_accept s.ssl) >>= λ r. finish_accept system s r))
            (finish_tls system (made (new_ssl context t)))
          ≡ (finish_accept system (secured_after retried) (handshake_after retried)
                >>= finish_tls system (made (new_ssl context t)))
              (Sys.ssl_accept (ssl retried) ∷ before_accept retried)
    unfolding TlsSocket.create_ssl
    ensured true = refl
    ensured false = refl

    accept_tls-finish :
        accept_tls system fd context t
        ≡ (finish_accept system secured handshake_answer
              >>= finish_tls system (made (new_ssl context t)))
            (Sys.ssl_accept (ssl is_retried) ∷ before_accept is_retried)
    unfolding accept_tls TlsSocket.create TlsSocket.create_ssl TlsSocket.accept TlsSocket.ensure_ssl
    accept_tls-finish = ensured is_retried

    before_accept-closes : (retried : Bool) (d : ℤ) → closes d (before_accept retried) ≡ closes d t
    before_accept-closes true d = refl
    before_accept-closes false d = refl

    accept_tls-given :
        (c : Option Connection) × (after : Trace) × (accept_tls system fd context t
          ≡ some (ok c, after))
        × (c ≡ accepted_or_not secured handshake_answer)
        × ((d : ℤ) → closes d after ≡ closes d t)
    accept_tls-given =
        let (c, after, run, is_c, quiet) =
          finish-Quiet (made (new_ssl context t)) secured handshake_answer
            (Sys.ssl_accept (ssl is_retried) ∷ before_accept is_retried) in
        (c, after, accept_tls-finish ∙ run, is_c, λ d. quiet d ∙ before_accept-closes is_retried d)

  module _ (a : Acceptor) (trace : Trace) where
    abbrev client_fd : ℤ
    client_fd = system.answer trace (Sys.accept a.master)

    abbrev listened : Trace
    listened = Sys.accept a.master ∷ trace

    -- What an acceptor gives, by the answers of accept and of SSL_accept.
    pub data Given : Option Connection → Type 0 where
      no_client : is_negative client_fd ≡ true → Given none
      plain_client :
          is_negative client_fd ≡ false
          → a.context ≡ none
          → Given (some (client (record { socket_fd = client_fd })))
      no_handshake :
          (context : ℤ)
          → is_negative client_fd ≡ false
          → a.context ≡ some context
          → is_not_positive (handshake_answer client_fd context listened) ≡ true
          → Given none
      tls_client :
          (context : ℤ)
          → is_negative client_fd ≡ false
          → a.context ≡ some context
          → is_not_positive (handshake_answer client_fd context listened) ≡ false
          → Given (some (tls (secured client_fd context listened)))

    secured-Given :
        (context : ℤ) (c : Option Connection)
        → is_negative client_fd ≡ false
        → a.context ≡ some context
        → c
          ≡ accepted_or_not
              (secured client_fd context listened)
              (handshake_answer client_fd context listened)
        → Given c
    secured-Given context c valid at e =
        elim (Bool-cases (is_not_positive (handshake_answer client_fd context listened))) [
          | inl failed ↦ subst Given (sym (rw failed at e)) (no_handshake context valid at failed)
          | inr good ↦ subst Given (sym (rw good at e)) (tls_client context valid at good)
        ]

    wrap-Given :
        (context : Option ℤ)
        → is_negative client_fd ≡ false
        → a.context ≡ context
        → (c : Option Connection) × (after : Trace) × (wrap system context client_fd listened
            ≡ some (ok c, after))
          × Given c
          × ((fd : ℤ) → closes fd after ≡ closes fd trace)
    unfolding wrap
    wrap-Given none valid at = (_, _, refl, plain_client valid at, λ fd. refl)
    wrap-Given (some context) valid at =
        let (c, after, run, is_c, quiet) = accept_tls-given client_fd context listened in
        (c, after, run, secured-Given context c valid at is_c, quiet)

    -- The acceptor always returns. Where accept answers a negative number it gives the null pointer;
    -- else, without a context, a plain connection on the descriptor that accept answered, and with
    -- one a TLS connection on it where SSL_accept answers a positive number, and the null pointer
    -- where it does not. It closes no descriptor, so that of a client whose handshake fails stays
    -- open.
    pub apply-Given :
        (c : Option Connection) × (after : Trace) × (apply system a trace ≡ some (ok c, after))
        × Given c
        × ((fd : ℤ) → closes fd after ≡ closes fd trace)
    unfolding apply
    apply-Given = elim (Bool-cases (is_negative client_fd)) [
      | inl failed ↦ (none, listened, rw failed, no_client failed, λ fd. refl)
      | inr valid ↦
          let (c, after, run, given, quiet) = wrap-Given a.context valid refl in
          (c, after, rw valid run, given, quiet)
    ]
