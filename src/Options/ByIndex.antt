-- ===== src/Options/ByIndex.antt =====
-- The loop of main.cpp over the options, which reads them by their index.
use small_http_server.Base.{
  ℕ, zero, suc, ◌+◌, ◌≡◌, refl, sym, ap, ◌∙◌, Bool, List, [], ◌∷◌, ◌++◌, Option, some, map, length,
  arith, append_assoc, length-append,
}
use small_http_server.Base.Int.{ℤ}
use small_http_server.Text.{Buffer}
use small_http_server.Options.{ServerOption, Json, get_option}
use small_http_server.Options.Class.{OptionsClass}

get_option-append :
    (before after : List ServerOption) (option : ServerOption)
    → get_option (before ++ option ∷ after) (length before) ≡ some option
unfolding get_option
get_option-append [] after option = refl
get_option-append (o ∷ before) after option = get_option-append before after option

-- The arguments of the constructor of ServerSocket that depend on the index.
abbrev pub Arguments : Type 0
Arguments = Option Buffer × Option Buffer × Option ℤ × Option Bool

abbrev pub arguments_of : ServerOption → Arguments
arguments_of o = (some o.ip_address, some o.family_address, some o.port, some o.is_secure)

module _ (json : Json) (class : OptionsClass json) where
  open class use {
    Object, get_ip, get_ip_family, get_port, is_secure, get_size, contents, size-contents, getters,
  }

  abbrev pub arguments_at : Object → ℕ → Arguments
  arguments_at o i = (get_ip o i, get_ip_family o i, get_port o i, is_secure o i)

  abbrev pub arguments_from : ℕ → ℕ → Object → List Arguments
  arguments_from zero i o = []
  arguments_from (suc rounds) i o = arguments_at o i ∷ arguments_from rounds (i + 1) o

  arguments_from-contents :
      (before after : List ServerOption) (i : ℕ) (o : Object)
      → contents o ≡ before ++ after
      → length before ≡ i
      → arguments_from (length after) i o ≡ map arguments_of after
  arguments_from-contents before [] i o e n = refl
  arguments_from-contents before (option ∷ after) i o e n =
      let at : get_option (contents o) i ≡ some option =
        rw (e, sym n) (get_option-append before after option) in
      let (family, ip, port, directory, secure) = getters o i option at in
      let later =
        arguments_from-contents (before ++ option ∷ []) after (i + 1) o
          (e ∙ sym (append_assoc before (option ∷ []) after))
          (omega (arith, n, length-append before (option ∷ []))) in
      cc (family, ip, port, secure, later)

  -- The loop of main reads the settings of each option once, in their order.
  pub arguments_from-get_size :
      (o : Object) → arguments_from (get_size o) 0 o ≡ map arguments_of (contents o)
  arguments_from-get_size o =
      ap (λ (n : ℕ). arguments_from n 0 o) (size-contents o)
      ∙ arguments_from-contents [] (contents o) 0 o refl refl
