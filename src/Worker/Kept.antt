-- ===== src/Worker/Kept.antt =====
-- What reading, writing and the test of a connection keep, the function Worker keeps until it
-- destroys the connection.
use small_http_server.Base.{
  ℕ, zero, suc, ◌+◌, ◌≡◌, refl, subst, inl, inr, Bool, true, false, [], ◌++◌, Option, none, some,
  Bool-cases, ltb, length, if◌then◌else◌,
}
use small_http_server.Base.Int.{ℤ, is_positive, is_not_positive}
use small_http_server.Exceptions.{Result, ok, throw}
use small_http_server.Run.{pure, lift, continue, ◌>>=◌}
use small_http_server.Text.{Buffer, str_eq, codes}
use small_http_server.Http.Packet.{Packet, is_keep_alive, is_get_method, get_path}
use small_http_server.Http.Message.{create200, create400, create404}
use small_http_server.Http.ContentType.{get_content_type}
use small_http_server.Http.Parser.{parse}
use small_http_server.Net.Socket.{Socket}
use small_http_server.Worker.Process.{refuse, send_file, process_path, process_get, c_str}
use small_http_server.Worker.Serve.{answer, serve_request, serve, Turn, after_serve, worker_turn}

-- The connection that a round has destroyed had the property until then.
abbrev pub ClosedKept :
    (open_file : Buffer → Option Buffer) (cs : Socket) (directory : Buffer) (stop : ℕ → Bool)
    (P : cs.State → Type 0)
    → Turn open_file cs directory stop
    → Type 0
ClosedKept open_file cs directory stop P turn =
    (c : cs.State) → turn.closed ≡ some c → (s : cs.State) × P s × (c ≡ cs.close s)

module _ (open_file : Buffer → Option Buffer) (cs : Socket) (directory : Buffer)
    (P : cs.State → Type 0)
    (write_keeps : (message : Buffer) (s s' : cs.State) (size : ℤ)
      → cs.write_packet message s ≡ some (ok size, s')
      → P s
      → P s') where
  open cs use {
    State, read_packet, write_packet, is_alive, read_returns, write_returns, set_timeout, close,
  }

  -- A run that returns or throws, in a state that has the property.
  abbrev pub Keeps : {A : Type 0} → Option (Result A × State) → Type 0
  Keeps {A} r = (a : Result A) × (s' : State) × (r ≡ some (a, s')) × P s'

  refuse-Keeps : (message : Buffer) (s : State) → P s → Keeps (refuse open_file cs message s)
  unfolding refuse
  refuse-Keeps message s p =
      let (size, s', e) = write_returns message s in
      (ok false, s', rw e, write_keeps message s s' size e p)

  send_200-Keeps :
      (content_type body : Buffer) (s s' : State) (size : ℤ)
      → write_packet (create200 body content_type true) s ≡ some (ok size, s')
      → P s
      → Keeps (send_file open_file cs content_type (some body) s)
  unfolding send_file
  send_200-Keeps content_type body s s' size e p = elim (Bool-cases (is_positive size)) [
    | inl sent ↦ (ok true, s', rw (e, sent), write_keeps _ s s' size e p)
    | inr lost ↦
        let (a, s'', r, k) = refuse-Keeps (create404 false) s' (write_keeps _ s s' size e p) in
        (a, s'', rw (e, lost) r, k)
  ]

  send_file-Keeps :
      (content_type : Buffer) (file : Option Buffer) (s : State)
      → P s
      → Keeps (send_file open_file cs content_type file s)
  unfolding send_file
  send_file-Keeps content_type none s p = refuse-Keeps (create404 false) s p
  send_file-Keeps content_type (some body) s p =
      let (size, s', e) = write_returns (create200 body content_type true) s in
      send_200-Keeps content_type body s s' size e p

  looked_up-Keeps :
      (full_path : Buffer) (r : Result Buffer) (s : State)
      → P s
      → Keeps (
          continue
            (some (r, s))
            (λ content_type. send_file open_file cs content_type (open_file (c_str full_path))))
  looked_up-Keeps full_path (ok content_type) s p =
      send_file-Keeps content_type (open_file (c_str full_path)) s p
  looked_up-Keeps full_path (throw e) s p = (throw e, s, refl, p)

  process_path-Keeps :
      (path : Buffer) (s : State) → P s → Keeps (process_path open_file cs path directory s)
  unfolding process_path
  process_path-Keeps path s p = elim (Bool-cases (ltb 100 (length path))) [
    | inl long ↦ rw long (refuse-Keeps (create400 false) s p)
    | inr short ↦ elim (Bool-cases (str_eq path (codes ".."))) [
      | inl same ↦ rw (short, same) (refuse-Keeps (create404 false) s p)
      | inr other ↦
          rw (short, other)
            (looked_up-Keeps (directory ++ path) (get_content_type (directory ++ path)) s p)
    ]
  ]

  path_result-Keeps :
      (r : Result Buffer) (s : State)
      → P s
      → Keeps (continue (some (r, s)) (λ path. process_path open_file cs path directory))
  path_result-Keeps (ok path) s p = process_path-Keeps path s p
  path_result-Keeps (throw e) s p = (throw e, s, refl, p)

  process_get-Keeps :
      (packet : Packet) (s : State) → P s → Keeps (process_get open_file cs packet directory s)
  unfolding process_get
  process_get-Keeps packet s p = path_result-Keeps (get_path packet) s p

  processed-Keeps :
      (is_ka : Bool) (r : Option (Result Bool × State))
      → Keeps r
      → Keeps (continue r (λ is_processed. if is_processed then pure (some is_ka) else pure none))
  processed-Keeps is_ka r (ok true, s', e, k) = (ok (some is_ka), s', rw e, k)
  processed-Keeps is_ka r (ok false, s', e, k) = (ok none, s', rw e, k)
  processed-Keeps is_ka r (throw x, s', e, k) = (throw x, s', rw e, k)

  answer_of-Keeps :
      (packet : Packet) (ka get : Result Bool) (s : State)
      → is_keep_alive packet ≡ ka
      → is_get_method packet ≡ get
      → P s
      → Keeps (answer open_file cs directory packet s)
  unfolding answer
  answer_of-Keeps packet (throw e) get s k g p = (throw e, s, rw k, p)
  answer_of-Keeps packet (ok is_ka) (throw e) s k g p = (throw e, s, rw (k, g), p)
  answer_of-Keeps packet (ok is_ka) (ok false) s k g p = (ok (some is_ka), s, rw (k, g), p)
  answer_of-Keeps packet (ok is_ka) (ok true) s k g p =
      rw (k, g) (processed-Keeps is_ka _ (process_get-Keeps packet s p))

  pub parsed-Keeps :
      (r : Result Packet) (s : State)
      → P s
      → Keeps (continue (some (r, s)) (answer open_file cs directory))
  parsed-Keeps (ok packet) s p = answer_of-Keeps packet _ _ s refl refl p
  parsed-Keeps (throw e) s p = (throw e, s, refl, p)

  module _
      (read_keeps : (s s' : State) (size : ℤ) (buffer : Buffer)
        → read_packet [] s ≡ some (ok (size, buffer), s')
        → P s
        → P s')
      (alive_keeps : (s : State) → P s → P (is_alive s).1) where
    read_result-Keeps :
        (size : ℤ) (buffer : Buffer) (s : State)
        → P s
        → Keeps (
            (if is_not_positive size
                then pure none
                else lift (parse buffer) >>= answer open_file cs directory)
              s)
    read_result-Keeps size buffer s p = elim (Bool-cases (is_positive size)) [
      | inl read_some ↦ rw read_some (parsed-Keeps (parse buffer) s p)
      | inr nothing ↦ (ok none, s, rw nothing, p)
    ]

    alive_result-Keeps :
        (s s' : State) (alive : Bool)
        → is_alive s ≡ (alive, s')
        → P s'
        → Keeps (serve_request open_file cs directory s)
    unfolding serve_request
    alive_result-Keeps s s' false e p = (ok none, s', rw e, p)
    alive_result-Keeps s s' true e p =
        let (size, buffer, s'', r, _) = read_returns [] s' in
        rw (e, r) (read_result-Keeps size buffer s'' (read_keeps s' s'' size buffer r p))

    -- One request returns or throws, whatever the client sends.
    pub serve_request-Keeps : (s : State) → P s → Keeps (serve_request open_file cs directory s)
    serve_request-Keeps s p = alive_result-Keeps s _ _ refl (alive_keeps s p)

    module _ (stop : ℕ → Bool) where
      abbrev Ends : Option (Result ℕ × State) → Type 0
      Ends o = (r : Result ℕ) (s : State) → o ≡ some (r, s) → P s

      serve_on-Ends :
          (fuel polls : ℕ) (o : Option (Result (Option Bool) × State))
          → Keeps o
          → ((is_ka : Bool) (s : State)
              → P s
              → Ends (serve open_file cs directory stop fuel is_ka (polls + 1) s))
          → Ends (
              continue o (λ next. elim next [
                | none ↦ pure (polls + 1)
                | some is_ka ↦ serve open_file cs directory stop fuel is_ka (polls + 1)
              ]))
      serve_on-Ends fuel polls o (throw x, s', e, k) later r s h =
          let same : s' ≡ s = cc (rw e at h) in subst P same k
      serve_on-Ends fuel polls o (ok none, s', e, k) later r s h =
          let same : s' ≡ s = cc (rw e at h) in subst P same k
      serve_on-Ends fuel polls o (ok (some is_ka), s', e, k) later r s h =
          later is_ka s' k r s (rw e at h)

      serve-Ends :
          (fuel : ℕ) (is_ka : Bool) (polls : ℕ) (s : State)
          → P s
          → Ends (serve open_file cs directory stop fuel is_ka polls s)
      unfolding serve
      serve-Ends zero is_ka polls s p r s' e = cc
      serve-Ends (suc fuel) false polls s p r s' e = let same : s ≡ s' = cc e in subst P same p
      serve-Ends (suc fuel) true polls s p r s' e = elim (Bool-cases (stop polls)) [
        | inl stopped ↦ let h = rw stopped at e in let same : s ≡ s' = cc h in subst P same p
        | inr go ↦
            serve_on-Ends fuel polls _ (serve_request-Keeps s p)
              (λ is_ka s p. serve-Ends fuel is_ka (polls + 1) s p) r s' (rw go at e)
      ]

      after_serve-ClosedKept :
          (o : Option (Result ℕ × State)) (turn : Turn open_file cs directory stop)
          → Ends o
          → after_serve open_file cs directory stop o ≡ some turn
          → ClosedKept open_file cs directory stop P turn
      unfolding after_serve
      after_serve-ClosedKept none turn h e c at = cc
      after_serve-ClosedKept (some (ok polls, s)) turn h e c at = (s, h _ s refl, cc (e, at))
      after_serve-ClosedKept (some (throw x, s)) turn h e c at = (s, h _ s refl, cc (e, at))

      pub worker_turn-ClosedKept :
          (fuel polls : ℕ) (s : State) (turn : Turn open_file cs directory stop)
          → P s
          → P (set_timeout s)
          → worker_turn open_file cs directory stop fuel polls (some s) ≡ some turn
          → ClosedKept open_file cs directory stop P turn
      unfolding worker_turn
      worker_turn-ClosedKept fuel polls s turn p q e = elim (Bool-cases (stop polls)) [
        | inl stopped ↦ λ c at. (s, p, cc (rw stopped at e, at))
        | inr go ↦
            after_serve-ClosedKept
              (serve open_file cs directory stop fuel true (polls + 1) (set_timeout s)) turn
              (serve-Ends fuel true (polls + 1) (set_timeout s) q) (rw go at e)
      ]
