-- ===== src/Http/ContentType/Extension.antt =====
-- Which part of a file's name `GetContentType` looks up.
use small_http_server.Base.{
  ℕ, ◌≡◌, refl, sym, ap, subst, ◌∙◌, ◌≢◌, ◌⊎◌, inl, inr, false, [], ◌∷◌, ◌++◌, some, none, arith,
  length, All, ◌==◌, Bool-cases, drop-append_length,
}
use small_http_server.Exceptions.{Result, ok}
use small_http_server.Text.{Buffer, rfind, substr_to_end}
use small_http_server.Text.Slices.{ltb-length_append}
use small_http_server.Http.Packet.{at}
use small_http_server.Http.ContentType.{files, get_content_type}

abbrev pub IsNotDot : ℕ → Type 0
IsNotDot c = c ≢ b'.'

rfind-none : (s : Buffer) → All IsNotDot s → rfind s b'.' ≡ none
unfolding rfind
rfind-none [] h = refl
rfind-none (c ∷ s) (n, h) =
    let miss : (c == b'.') ≡ false = ground arith in rw (rfind-none s h, miss)

rfind-last :
    (pre ext : Buffer) → All IsNotDot ext → rfind (pre ++ b'.' ∷ ext) b'.' ≡ some (length pre)
unfolding rfind
rfind-last [] ext h = rw (rfind-none ext h)
rfind-last (c ∷ pre) ext h = rw (rfind-last pre ext h)

-- The extension of a name begins at its last dot; what is found is looked up in the table.
pub data Extension (name : Buffer) : Result Buffer → Type 0 where
  no_dot : All IsNotDot name → Extension name (ok [])
  last_dot :
      (pre ext : Buffer)
      → name ≡ pre ++ b'.' ∷ ext
      → All IsNotDot ext
      → Extension name (at files (b'.' ∷ ext))

get_content_type-no_dot : (name : Buffer) → All IsNotDot name → get_content_type name ≡ ok []
unfolding get_content_type
get_content_type-no_dot name h = rw (get_content_type, rfind-none name h)

get_content_type-last_dot :
    (pre ext : Buffer)
    → All IsNotDot ext
    → get_content_type (pre ++ b'.' ∷ ext) ≡ at files (b'.' ∷ ext)
unfolding get_content_type substr_to_end
get_content_type-last_dot pre ext h = rw (
  get_content_type,
  rfind-last pre ext h,
  ltb-length_append pre (b'.' ∷ ext),
  drop-append_length pre (b'.' ∷ ext),
)

dot_split :
    (name : Buffer)
    → All IsNotDot name
      ⊎ ((pre : Buffer) × (ext : Buffer) × (name ≡ pre ++ b'.' ∷ ext) × All IsNotDot ext)
dot_split [] = inl tt
dot_split (c ∷ name) = elim (dot_split name) [
  | inr (pre, ext, e, h) ↦ inr (c ∷ pre, ext, ap (◌∷◌ c) e, h)
  | inl h ↦ elim (Bool-cases (c == b'.')) [
    | inl dot ↦ inr ([], name, ap (λ (d : ℕ). d ∷ name) (ground arith), h)
    | inr other ↦ inl (ground arith, h)
  ]
]

-- `GetContentType` of a name with a dot is what the table has for the part from the last dot on, an
-- exception included; a name with no dot has the empty type.
pub get_content_type-Extension : (name : Buffer) → Extension name (get_content_type name)
get_content_type-Extension name = elim (dot_split name) [
  | inl h ↦ subst (Extension name) (sym (get_content_type-no_dot name h)) (no_dot h)
  | inr (pre, ext, e, h) ↦
      subst (Extension name) (sym (ap get_content_type e ∙ get_content_type-last_dot pre ext h))
        (last_dot pre ext e h)
]
