-- ===== src/Tests/Starting.antt =====
-- The options, and the set-up from them.
use small_http_server.Base.{◌≡◌, ◌↔◌, false, List, [], ◌∷◌, some, map}
use small_http_server.Base.Int.{pos}
use small_http_server.Exceptions.{ok}
use small_http_server.Text.{codes}
use small_http_server.Http.Packet.{Params, at}
use small_http_server.Net.Server.{Server}
use small_http_server.Options.{Key, key_p, Json, read_option, create}
use small_http_server.Options.Settings.{create-file}

-- Values that are lists of objects with strings.
abbrev pub first_object : List Params → Params
first_object [] = []
first_object (o ∷ os) = o

abbrev pub objects : Json
objects = record {
  Value = List Params;
  elements = λ os. map (λ o. o ∷ []) os;
  text_at = λ os name. at (first_object os) name;
  int_at = λ os name. ok (pos 2000);
}

abbrev port_keys : List Key
port_keys = key_p (codes "80") ∷ []

abbrev config : List Params
config =
    ((codes "ipfamily", codes "ip4")
      ∷ (codes "address", codes "::0")
      ∷ (codes "directory", codes "html")
      ∷ (codes "secure", codes "true")
      ∷ [])
    ∷ []

create-file_example :
    (create objects port_keys (some (ok config)) ≡ ok [])
    ↔ (map (read_option objects) (objects.elements config) ≡ map ok [])
create-file_example = create-file objects port_keys config []

-- The set-up without a configuration file.
abbrev pub set_up_server : Server
set_up_server = record {
  epoll = pos 1;
  server_sockets = record { socket_fd = pos 1; secure = false } ∷ [];
  tls_context = record { ctx = pos 1 };
}
