-- ===== src/Http/Parser.antt =====
-- namespace HTTPPacket of HTTPPacket.cpp.
pub mod Header
pub mod Field
pub mod NoValue
pub mod Request
pub mod Rounds
pub mod Lines
pub mod BlankLine
use mathlib.Core.Option
use small_http_server.Base.{
  ℕ, zero, suc, ◌+◌, ◌-◌, Bool, false, List, [], ◌∷◌, ◌++◌, Option, none, some, ltb, leb, ◌==◌,
  if◌then◌else◌, length,
}
use small_http_server.Exceptions.{
  Exception, parse_exception, out_of_range, Result, ok, throw, ◌>>=◌,
}
use small_http_server.Text.{
  Buffer, codes, crlf, str_eq, find_from, find_first_of, find_first_not_of, substr,
}
use small_http_server.Http.Packet.{
  Packet, command_param, path_param, connection_param, empty_packet, add_param,
}

-- A position that the code compares with npos before it throws.
abbrev pub or_throw {ℓ} : {A : Type ℓ} → Option A → Exception → Result A
or_throw none e = throw e
or_throw (some a) e = ok a

-- The value between `begin`, where it may be npos, and the end of its line. A search from npos
-- finds nothing, and `substr` throws at npos.
unfoldable pub field_value : Buffer → Option ℕ → Result Buffer
field_value buffer none = throw out_of_range
field_value buffer (some begin) =
    let end = Option.get_or (find_from buffer crlf begin) (length buffer) in
    substr buffer begin (end - begin)

unfoldable pub extract_field : Buffer → Buffer → Result Buffer
unfolding field_value
extract_field buffer field = elim (find_from buffer field 0) [
  | none ↦ ok []
  | some command ↦ field_value buffer (
      Option.bind (find_from buffer (codes " ") command)
        (λ value. find_first_not_of buffer (codes " ") value))
]

abbrev pub end_packet : Buffer
end_packet = crlf ++ crlf

-- `offset` is an int that is never negative.
unfoldable pub is_blank_line : ℕ → Buffer → Result Bool
is_blank_line offset buffer =
    let size = length end_packet in
    if leb size offset
    then (do l ← substr buffer (offset - size) size; ok (str_eq l end_packet))
    else ok false

-- The header line, cut into the command and the path.
unfoldable pub parse_header : Buffer → Result Packet
parse_header header = do
  k ← or_throw (find_from header (codes " ") 0) (parse_exception "doesn't find ' '")
  type_command ← substr header 0 k
  let packet = add_param empty_packet command_param type_command
  let start = k + 1
  z ← or_throw (find_first_of header (codes " ?") start) (parse_exception "doesn't find ' ?'")
  path ← substr header start (z - start)
  ok (add_param packet path_param path)

unfoldable pub parse : Buffer → Result Packet
parse buffer = do
  i ← or_throw (find_from buffer crlf 0) (parse_exception "\r\n wasn't found")
  header ← substr buffer 0 i
  packet ← parse_header header
  value ← extract_field buffer connection_param
  ok (add_param packet connection_param value)

-- Where the line that begins at `pos` ends.
abbrev pub next_pos : Buffer → ℕ → ℕ
next_pos buffer pos = Option.get_or (find_from buffer crlf pos) (length buffer)

-- One round of the loop of `Split`, on the line from `pos` to `next`; `again` runs the rounds left.
unfoldable pub split_round :
    (ℕ → List Buffer → Option (Result (List Buffer)))
    → Buffer
    → ℕ
    → ℕ
    → List Buffer
    → Option (Result (List Buffer))
split_round again buffer pos next splitted = elim (substr buffer pos (next - pos)) [
  | throw e ↦ some (throw e)
  | ok t ↦
      if next == length buffer
      then some (ok (splitted ++ t ∷ []))
      else if ltb (next + 2) (length buffer)
      then again (next + 2) (splitted ++ t ∷ [])
      else some (ok (splitted ++ t ∷ []))
]

-- The loop, on fuel; `none` means that the fuel ran out.
unfoldable pub split_loop : ℕ → Buffer → ℕ → List Buffer → Option (Result (List Buffer))
split_loop zero buffer pos splitted = none
split_loop (suc fuel) buffer pos splitted =
    split_round (split_loop fuel buffer) buffer pos (next_pos buffer pos) splitted

-- Each round moves `pos` on by two bytes at least, so the buffer's length is fuel enough.
unfoldable pub split : Buffer → Option (Result (List Buffer))
split [] = some (ok [])
split (c ∷ buffer) = split_loop (length (c ∷ buffer)) (c ∷ buffer) 0 []
