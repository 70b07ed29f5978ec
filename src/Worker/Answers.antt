-- ===== src/Worker/Answers.antt =====
-- How a worker answers a GET, from its arrival to the bytes that are sent.
use small_http_server.Base.{
  ◌≡◌, ◌∙◌, refl, Bool, true, false, Option, some, none, ◌++◌, if◌then◌else◌,
}
use small_http_server.Exceptions.{ok}
use small_http_server.Run.{pure}
use small_http_server.Text.{Buffer}
use small_http_server.Http.Packet.{Packet, get_path, is_keep_alive, is_get_method}
use small_http_server.Http.Parser.{parse}
use small_http_server.Net.Socket.{Socket}
use small_http_server.Worker.Process.{process_get}
use small_http_server.Worker.Replies.{TakesAll, Reply, process_path-Sends}
use small_http_server.Worker.Requests.{Arrived, serve_request_arrived}
use small_http_server.Worker.Serve.{answer, serve_request}

module _ (open_file : Buffer → Option Buffer) (directory path : Buffer) (cs : Socket)
    (takes : TakesAll cs) where
  open cs use {State, delivered}

  -- What the loop does with the result of ProcessGET.
  after_processed :
      (is_ka kept : Bool) (s : State)
      → (if kept then pure {S = State} (some is_ka) else pure none) s
        ≡ some (ok (if kept then some is_ka else none), s)
  after_processed is_ka true s = refl
  after_processed is_ka false s = refl

  answer_get :
      (packet : Packet) (is_ka kept : Bool) (s s' : State)
      → is_get_method packet ≡ ok true
      → is_keep_alive packet ≡ ok is_ka
      → process_get open_file cs packet directory s ≡ some (ok kept, s')
      → answer open_file cs directory packet s ≡ some (ok (if kept then some is_ka else none), s')
  unfolding answer
  answer_get packet is_ka kept s s' g k e = rw (k, g, e) (after_processed is_ka kept s')

  -- A GET that arrives on a connection that takes whole messages is answered with the reply to its
  -- path, and nothing else is sent. After a file the connection goes on as the request's Connection
  -- field says; after any other reply it is left.
  pub serve_request_get :
      (s : State) (buffer : Buffer) (s' : State) (packet : Packet) (is_ka kept : Bool)
      (message : Buffer)
      → Arrived open_file cs directory s buffer s'
      → parse buffer ≡ ok packet
      → get_path packet ≡ ok path
      → is_get_method packet ≡ ok true
      → is_keep_alive packet ≡ ok is_ka
      → Reply open_file directory path message kept
      → (s'' : State) × (serve_request open_file cs directory s
          ≡ some (ok (if kept then some is_ka else none), s''))
        × (delivered s'' ≡ delivered s' ++ message)
  unfolding process_get
  serve_request_get s buffer s' packet is_ka kept message a p at g k reply =
      let (s'', e, d) =
        process_path-Sends open_file directory path cs takes message kept s' reply in
      (
        s'',
        serve_request_arrived open_file cs directory s buffer s' a
            ∙ rw p (answer_get packet is_ka kept s' s'' g k (rw at e)),
        d,
      )
