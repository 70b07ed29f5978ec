-- ===== src/Worker/Process.antt =====
-- Commander::ProcessGET of Worker.cpp. The files are a parameter: `open` gives the content of the
-- file that std::fstream opens, if it opens one.
use small_http_server.Base.{
  Bool, true, false, [], ◌∷◌, ◌++◌, Option, none, some, ltb, ◌==◌, length, if◌then◌else◌,
}
use small_http_server.Base.Int.{is_not_positive}
use small_http_server.Run.{Run, pure, lift, ◌>>=◌}
use small_http_server.Text.{Buffer, codes, str_eq}
use small_http_server.Http.Packet.{Packet, get_path}
use small_http_server.Http.Message.{create200_default, create400_default, create404_default}
use small_http_server.Http.ContentType.{get_content_type}
use small_http_server.Net.Socket.{Socket}

-- The file name that `open` is called with: std::string::c_str, read up to the first zero byte.
unfoldable pub c_str : Buffer → Buffer
c_str [] = []
c_str (c ∷ s) = if c == 0 then [] else c ∷ c_str s

module _ (open_file : Buffer → Option Buffer) (cs : Socket) where
  open cs use {State, write_packet}

  -- A response of which only the sending counts.
  unfoldable pub refuse : Buffer → Run State Bool
  refuse message = do _ ← write_packet message; pure false

  unfoldable pub send_file : Buffer → Option Buffer → Run State Bool
  unfolding refuse
  send_file content_type none = refuse (create404_default)
  send_file content_type (some body) = do
    result ← write_packet (create200_default body content_type)
    if is_not_positive result then refuse (create404_default) else pure true

  unfoldable pub process_path : Buffer → Buffer → Run State Bool
  unfolding refuse send_file
  process_path path directory =
      if ltb 100 (length path)
      then refuse create400_default
      else if str_eq path (codes "..")
      then refuse (create404_default)
      else lift (get_content_type (directory ++ path)) >>= λ content_type.
          send_file content_type (open_file (c_str (directory ++ path)))

  unfoldable pub process_get : Packet → Buffer → Run State Bool
  unfolding process_path
  process_get packet directory = do path ← lift (get_path packet); process_path path directory
