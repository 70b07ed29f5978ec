-- ===== src/Worker/Replies.antt =====
-- What ProcessGET sends.
use native.Mathlib.Decide.{dec_lt}
use small_http_server.Base.{
  ◌≤◌, ◌<◌, ◌≡◌, ◌≢◌, refl, sym, ap, subst, ◌∙◌, ◌⊎◌, inl, inr, Bool, true, false, ◌++◌, Option,
  none, some, arith, ltb, lt→ltb, length, Bool-cases,
}
use small_http_server.Base.Int.{pos, is_not_positive}
use small_http_server.Exceptions.{Exception, Result, ok, throw}
use small_http_server.Run.{continue}
use small_http_server.Text.{Buffer, codes, str_eq}
use small_http_server.Text.Search.{str_eq_iff}
use small_http_server.Http.Packet.{Packet, get_path}
use small_http_server.Http.Message.{create200, create400, create404}
use small_http_server.Http.ContentType.{get_content_type}
use small_http_server.Net.Socket.{Socket}
use small_http_server.Worker.Process.{c_str, refuse, send_file, process_path, process_get}

-- A connection that takes whole messages.
abbrev pub TakesAll : (cs : Socket) → Type 0
TakesAll cs =
    (message : Buffer) (s : cs.State)
    → (s' : cs.State) × (cs.write_packet message s ≡ some (ok (pos (length message)), s'))
      × (cs.delivered s' ≡ cs.delivered s ++ message)

module _ (open_file : Buffer → Option Buffer) (directory path : Buffer) where
  abbrev pub full_path : Buffer
  full_path = directory ++ path

  abbrev pub parent : Buffer
  parent = codes ".."

  -- The answer to a path: the message, and whether the connection stays open.
  pub data Reply : Buffer → Bool → Type 0 where
    too_long : 100 < length path → Reply (create400 false) false
    is_parent : length path ≤ 100 → path ≡ parent → Reply (create404 false) false
    no_file :
        (content_type : Buffer)
        → length path ≤ 100
        → path ≢ parent
        → get_content_type full_path ≡ ok content_type
        → open_file (c_str full_path) ≡ none
        → Reply (create404 false) false
    file :
        (content_type body : Buffer)
        → length path ≤ 100
        → path ≢ parent
        → get_content_type full_path ≡ ok content_type
        → open_file (c_str full_path) ≡ some body
        → Reply (create200 body content_type true) true

  module _ (cs : Socket) (takes : TakesAll cs) where
    open cs use {State, delivered}

    -- A run of ProcessGET that sends `message`.
    abbrev pub Sends : Buffer → Bool → State → Option (Result Bool × State) → Type 0
    Sends message kept s r =
        (s' : State) × (r ≡ some (ok kept, s')) × (delivered s' ≡ delivered s ++ message)

    refuse-Sends :
        (message : Buffer) (s : State) → Sends message false s (refuse open_file cs message s)
    unfolding refuse
    refuse-Sends message s = let (s', e, d) = takes message s in (s', rw e, d)

    create200-positive :
        (content_type body : Buffer)
        → is_not_positive (pos (length (create200 body content_type true))) ≡ false
    unfolding create200
    create200-positive content_type body = refl

    send_file-Sends :
        (content_type body : Buffer) (s : State)
        → Sends
            (create200 body content_type true)
            true
            s
            (send_file open_file cs content_type (some body) s)
    unfolding send_file
    send_file-Sends content_type body s =
        let (s', e, d) = takes (create200 body content_type true) s in
        (s', rw (e, create200-positive content_type body), d)

    send_file-missing :
        (content_type : Buffer) (s : State)
        → Sends (create404 false) false s (send_file open_file cs content_type none s)
    unfolding send_file
    send_file-missing content_type s = refuse-Sends (create404 false) s

    process_path_too_long :
        (s : State)
        → 100 < length path
        → process_path open_file cs path directory s ≡ refuse open_file cs (create400 false) s
    unfolding process_path
    process_path_too_long s h = rw (lt→ltb 100 (length path) h)

    process_path-parent :
        (s : State)
        → length path ≤ 100
        → path ≡ parent
        → process_path open_file cs path directory s ≡ refuse open_file cs (create404 false) s
    unfolding process_path
    process_path-parent s h e =
        let short : ltb 100 (length path) ≡ false = ground arith in
        rw (short, (str_eq_iff path parent).1 e)

    -- Any other path is looked up.
    process_path_other :
        (s : State) (r : Result Buffer)
        → length path ≤ 100
        → path ≢ parent
        → get_content_type full_path ≡ r
        → process_path open_file cs path directory s
          ≡ continue
              (some (r, s))
              (λ content_type. send_file open_file cs content_type (open_file (c_str full_path)))
    unfolding process_path
    process_path_other s r h n e =
        let short : ltb 100 (length path) ≡ false = ground arith in
        let other : str_eq path parent ≡ false = ground (arith, str_eq_iff path parent) in
        rw (short, other, e)

    pub process_path-Sends :
        (message : Buffer) (kept : Bool) (s : State)
        → Reply message kept
        → Sends message kept s (process_path open_file cs path directory s)
    process_path-Sends message kept s (too_long h) =
        subst (Sends message kept s) (sym (process_path_too_long s h))
          (refuse-Sends (create400 false) s)
    process_path-Sends message kept s (is_parent h e) =
        subst (Sends message kept s) (sym (process_path-parent s h e))
          (refuse-Sends (create404 false) s)
    process_path-Sends message kept s (no_file ct h n c o) =
        subst (Sends message kept s)
          (sym (
            process_path_other s (ok ct) h n c
            ∙ ap (λ (f : Option Buffer). send_file open_file cs ct f s) o))
          (send_file-missing ct s)
    process_path-Sends message kept s (file ct body h n c o) =
        subst (Sends message kept s)
          (sym (
            process_path_other s (ok ct) h n c
            ∙ ap (λ (f : Option Buffer). send_file open_file cs ct f s) o))
          (send_file-Sends ct body s)

    -- ProcessGET sends one reply, or throws where the content type does.
    abbrev pub Replies : State → Option (Result Bool × State) → Type 0
    Replies s r =
        ((message : Buffer) × (kept : Bool) × Reply message kept × Sends message kept s r)
        ⊎ ((e : Exception) × (length path ≤ 100)
            × (path ≢ parent)
            × (get_content_type full_path ≡ throw e)
            × (r ≡ some (throw e, s)))

    Replies-of_Reply :
        (message : Buffer) (kept : Bool) (s : State)
        → Reply message kept
        → Replies s (process_path open_file cs path directory s)
    Replies-of_Reply message kept s h = inl (message, kept, h, process_path-Sends message kept s h)

    process_other-Replies :
        (s : State) (r : Result Buffer) (found : Option Buffer)
        → length path ≤ 100
        → path ≢ parent
        → get_content_type full_path ≡ r
        → open_file (c_str full_path) ≡ found
        → Replies s (process_path open_file cs path directory s)
    process_other-Replies s (ok ct) none h n c o = Replies-of_Reply _ _ s (no_file ct h n c o)
    process_other-Replies s (ok ct) (some body) h n c o =
        Replies-of_Reply _ _ s (file ct body h n c o)
    process_other-Replies s (throw e) found h n c o =
        inr (e, h, n, c, process_path_other s (throw e) h n c)

    process_path-Replies : (s : State) → Replies s (process_path open_file cs path directory s)
    process_path-Replies s = elim (dec_lt 100 (length path)) [
      | yes long ↦ Replies-of_Reply _ _ s (too_long long)
      | no short ↦ elim (Bool-cases (str_eq path parent)) [
        | inl same ↦
            Replies-of_Reply _ _ s (is_parent (omega arith) ((str_eq_iff path parent).0 same))
        | inr other ↦
            process_other-Replies s _ _ (omega arith) (λ e. cc ((str_eq_iff path parent).1 e)) refl
              refl
      ]
    ]

    -- On a connection that takes whole messages, ProcessGET answers a path of more than 100 bytes
    -- with a 400, the path ".." and a name that opens no file with a 404, and any other with the
    -- bytes of the file that `directory + path` names; only then the connection is kept. It throws,
    -- and sends nothing, exactly where the content type of the name throws.
    pub process_get-Replies :
        (packet : Packet) (s : State)
        → get_path packet ≡ ok path
        → Replies s (process_get open_file cs packet directory s)
    unfolding process_get
    process_get-Replies packet s e = rw e (process_path-Replies s)
