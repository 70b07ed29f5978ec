-- ===== src/Http/Packet.antt =====
-- struct Packet of HTTPPacket.h. The map `params` is an association list: the program only
-- inserts into it and looks keys up, so the order of a std::map is never seen.
use small_http_server.Base.{ℕ, ◌+◌, Bool, ◌&&◌, List, [], ◌∷◌, map, leb, if◌then◌else◌}
use small_http_server.Exceptions.{Result, ok, throw, out_of_range, ◌>>=◌}
use small_http_server.Text.{Buffer, codes, str_eq}

abbrev pub Params : Type 0
Params = List (Buffer × Buffer)

-- std::map::at
unfoldable pub at : Params → Buffer → Result Buffer
at [] name = throw out_of_range
at ((key, value) ∷ params) name = if str_eq key name then ok value else at params name

-- std::map::insert of a pair, which leaves a key that is there as it is.
unfoldable pub insert : Params → Buffer → Buffer → Params
insert [] name value = (name, value) ∷ []
insert ((key, old) ∷ params) name value =
    if str_eq key name then (key, old) ∷ params else (key, old) ∷ insert params name value

-- namespace HTTPParams
abbrev pub command_param : Buffer
command_param = codes "command"

abbrev pub path_param : Buffer
path_param = codes "path"

abbrev pub connection_param : Buffer
connection_param = codes "Connection"

pub record Packet : Type 0 where
  pub params : Params

abbrev pub empty_packet : Packet
empty_packet = record { params = [] }

unfoldable pub add_param : Packet → Buffer → Buffer → Packet
add_param packet name value = record packet { params = insert packet.params name value }

unfoldable pub get_path : Packet → Result Buffer
get_path packet = at packet.params path_param

unfoldable pub is_get_method : Packet → Result Bool
is_get_method packet = do
  command ← at packet.params command_param
  ok (str_eq (codes "GET") command)

-- tolower in the "C" locale
unfoldable pub to_lower : ℕ → ℕ
to_lower c = if leb b'A' c && leb c b'Z' then c + 32 else c

unfoldable pub is_keep_alive : Packet → Result Bool
is_keep_alive packet = do
  val ← at packet.params connection_param
  ok (str_eq (codes "keep-alive") (map to_lower val))
