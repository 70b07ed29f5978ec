-- ===== src/Worker/Termination.antt =====
-- The end of the inner loop of the function Worker, by the requests that a client has still to send.
use small_http_server.Base.{
  ℕ, zero, suc, ◌+◌, ◌≤◌, ◌<◌, ◌≡◌, refl, inl, inr, Bool, true, false, [], Option, none, some,
  arith, Bool-cases, if◌then◌else◌,
}
use small_http_server.Base.Int.{ℤ, is_positive, is_not_positive}
use small_http_server.Exceptions.{Result, ok, throw}
use small_http_server.Run.{Run, pure, lift, ◌>>=◌}
use small_http_server.Text.{Buffer}
use small_http_server.Http.Parser.{parse}
use small_http_server.Net.Socket.{Socket}
use small_http_server.Worker.Kept.{parsed-Keeps}
use small_http_server.Worker.Serve.{answer, serve_request, serve}

-- The requests that the client has still to send: reading one uses it up, and nothing adds one.
pub record Finite (cs : Socket) : Type 0 where
  pub pending : cs.State → ℕ
  pub read_uses :
      (s s' : cs.State) (size : ℤ) (buffer : Buffer)
      → cs.read_packet [] s ≡ some (ok (size, buffer), s')
      → is_positive size ≡ true
      → pending s' < pending s
  pub write_keeps :
      (message : Buffer) (s s' : cs.State) (size : ℤ)
      → cs.write_packet message s ≡ some (ok size, s')
      → pending s' ≤ pending s
  pub alive_keeps : (s : cs.State) → pending (cs.is_alive s).1 ≤ pending s

module _ (open_file : Buffer → Option Buffer) (cs : Socket) (directory : Buffer)
    (f : Finite cs) where
  open cs use {State, read_packet, write_packet, is_alive, read_returns, write_returns}
  open f use {pending, read_uses, write_keeps, alive_keeps}

  -- A request that lets the loop go round again has used up one that was pending.
  abbrev Advances : ℕ → Option (Result (Option Bool) × State) → Type 0
  Advances n r =
      (a : Result (Option Bool)) × (s' : State) × (r ≡ some (a, s'))
      × ((is_ka : Bool) → a ≡ ok (some is_ka) → pending s' < n)

  read-Advances :
      (n : ℕ) (s s' : State) (size : ℤ) (buffer : Buffer)
      → pending s ≤ n
      → read_packet [] s ≡ some (ok (size, buffer), s')
      → Advances n (
          (if is_not_positive size
              then pure none
              else lift (parse buffer) >>= answer open_file cs directory)
            s')
  read-Advances n s s' size buffer h e = elim (Bool-cases (is_positive size)) [
    | inl read_some ↦
        let (a, s'', r, k) =
          parsed-Keeps open_file cs directory (λ u. pending u ≤ pending s')
            (λ message u u' written e p. omega (arith, p, write_keeps message u u' written e))
            (parse buffer) s' (omega arith) in
        (
          a,
          s'',
          rw read_some r,
          λ is_ka _. omega (arith, k, read_uses s s' size buffer e read_some),
        )
    | inr nothing ↦ (ok none, s', rw nothing, λ is_ka x. cc)
  ]

  alive-Advances :
      (s s' : State) (alive : Bool)
      → is_alive s ≡ (alive, s')
      → pending s' ≤ pending s
      → Advances (pending s) (serve_request open_file cs directory s)
  unfolding serve_request
  alive-Advances s s' false e h = (ok none, s', rw e, λ is_ka x. cc)
  alive-Advances s s' true e h =
      let (size, buffer, s'', r, _) = read_returns [] s' in
      rw (e, r) (read-Advances (pending s) s' s'' size buffer h r)

  serve_request-Advances :
      (s : State) → Advances (pending s) (serve_request open_file cs directory s)
  serve_request-Advances s = alive-Advances s _ _ refl (alive_keeps s)

  module _ (stop : ℕ → Bool) where
    abbrev serve_on : ℕ → Bool → ℕ → Run State ℕ
    serve_on = serve open_file cs directory stop

    next_round :
        (fuel polls : ℕ) (s : State) (a : Result (Option Bool)) (s' : State)
        → stop polls ≡ false
        → serve_request open_file cs directory s ≡ some (a, s')
        → ((is_ka : Bool)
            → a ≡ ok (some is_ka)
            → (r : Result ℕ × State) × (serve_on fuel is_ka (polls + 1) s' ≡ some r))
        → (r : Result ℕ × State) × (serve_on (suc fuel) true polls s ≡ some r)
    unfolding serve
    next_round fuel polls s (throw e) s' go step later = ((throw e, s'), rw (go, step))
    next_round fuel polls s (ok none) s' go step later = ((ok (polls + 1), s'), rw (go, step))
    next_round fuel polls s (ok (some is_ka)) s' go step later = rw (go, step) (later is_ka refl)

    -- With a client that has finitely many requests to send, the inner loop ends, whatever the
    -- requests are and whether or not a stop is requested: a round for each request and one more
    -- are fuel enough.
    pub serve_returns :
        (fuel : ℕ) (is_ka : Bool) (polls : ℕ) (s : State)
        → pending s < fuel
        → (r : Result ℕ × State) × (serve_on fuel is_ka polls s ≡ some r)
    unfolding serve
    serve_returns zero is_ka polls s h = elim h [ ]
    serve_returns (suc fuel) false polls s h = ((ok polls, s), refl)
    serve_returns (suc fuel) true polls s h = elim (Bool-cases (stop polls)) [
      | inl stopped ↦ ((ok (polls + 1), s), rw stopped)
      | inr go ↦
          let (a, s', step, less) = serve_request-Advances s in
          next_round fuel polls s a s' go step
            (λ is_ka e. serve_returns fuel is_ka (polls + 1) s' (omega (arith, less is_ka e)))
    ]
