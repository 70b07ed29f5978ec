-- ===== src/Http/ContentType.antt =====
-- namespace FileHelper of HTTPPacket.cpp.
pub mod Extension
use small_http_server.Base.{[], ◌∷◌, none, some}
use small_http_server.Exceptions.{Result, ok, ◌>>=◌}
use small_http_server.Text.{Buffer, codes, rfind, substr_to_end}
use small_http_server.Http.Packet.{Params, at}

abbrev pub files : Params
files =
    (codes ".css", codes "text/css")
    ∷ (codes ".csv", codes "text/csv")
    ∷ (codes ".gif", codes "image/gif")
    ∷ (codes ".htm", codes "text/html")
    ∷ (codes ".html", codes "text/html")
    ∷ (codes ".ico", codes "image/x-icon")
    ∷ (codes ".jpeg", codes "image/jpeg")
    ∷ (codes ".jpg", codes "image/jpeg")
    ∷ (codes ".js", codes "application/javascript")
    ∷ (codes ".json", codes "application/json")
    ∷ (codes ".png", codes "image/png")
    ∷ (codes ".pdf", codes "application/pdf")
    ∷ (codes ".svg", codes "application/svg+xml")
    ∷ (codes ".txt", codes "text/plain")
    ∷ []

-- The content type of a file name: that of its extension, from the last dot on. A name with no dot
-- has the empty type, and an extension that the table lacks throws.
unfoldable pub get_content_type : Buffer → Result Buffer
get_content_type file_name = elim (rfind file_name b'.') [
  | none ↦ ok []
  | some pos ↦ substr_to_end file_name pos >>= λ ext. at files ext
]
