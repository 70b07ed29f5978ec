-- ===== src/Options/Class.antt =====
-- The class Options of Options.h, as main sees it: settings by their index, below the size.
use small_http_server.Base.{ℕ, ◌≡◌, refl, Bool, List, Option, some, length}
use small_http_server.Base.Int.{ℤ}
use small_http_server.Exceptions.{Result}
use small_http_server.Text.{Buffer}
use small_http_server.Options.{
  ServerOption, Key, Json, create, destroy, get_option, get_ip_family, get_ip, get_port,
  get_directory, is_secure, get_size,
}

-- `contents` is what an object holds.
pub record OptionsClass (json : Json) : Type 1 where
  pub Object : Type 0
  pub destroy : Object → Unit {0}
  pub create : List Key → Option (Result json.Value) → Result Object
  pub get_ip_family : Object → ℕ → Option Buffer
  pub get_ip : Object → ℕ → Option Buffer
  pub get_port : Object → ℕ → Option ℤ
  pub get_directory : Object → ℕ → Option Buffer
  pub is_secure : Object → ℕ → Option Bool
  pub get_size : Object → ℕ
  pub contents : Object → List ServerOption
  pub size-contents : (o : Object) → get_size o ≡ length (contents o)
  pub getters :
      (o : Object) (index : ℕ) (option : ServerOption)
      → get_option (contents o) index ≡ some option
      → (get_ip_family o index ≡ some option.family_address)
        × (get_ip o index ≡ some option.ip_address)
        × (get_port o index ≡ some option.port)
        × (get_directory o index ≡ some option.directory)
        × (is_secure o index ≡ some option.is_secure)

module _ (json : Json) where
  pub getters_read :
      (o : List ServerOption) (index : ℕ) (option : ServerOption)
      → get_option o index ≡ some option
      → (get_ip_family o index ≡ some option.family_address)
        × (get_ip o index ≡ some option.ip_address)
        × (get_port o index ≡ some option.port)
        × (get_directory o index ≡ some option.directory)
        × (is_secure o index ≡ some option.is_secure)
  unfolding get_ip_family get_ip get_port get_directory is_secure
  getters_read o index option e = (rw e, rw e, rw e, rw e, rw e)

  pub size_is : (o : List ServerOption) → get_size o ≡ length o
  unfolding get_size
  size_is o = refl

  abbrev pub option_list : OptionsClass json
  option_list = record {
    Object = List ServerOption;
    destroy = destroy;
    create = create json;
    get_ip_family = get_ip_family;
    get_ip = get_ip;
    get_port = get_port;
    get_directory = get_directory;
    is_secure = is_secure;
    get_size = get_size;
    contents = λ o. o;
    size-contents = size_is;
    getters = getters_read;
  }
