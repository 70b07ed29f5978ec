-- ===== src/Options.antt =====
-- Options.h and Options.cpp. What getopt answers before it ends is a list of keys with their
-- arguments; the JSON library is a parameter.
pub mod Settings
pub mod Class
pub mod ByIndex
use mathlib.Core.Option
use small_http_server.Base.{
  ℕ, zero, suc, ◌+◌, ◌*◌, ◌-◌, Bool, true, false, ◌&&◌, ◌||◌, List, [], ◌∷◌, ◌++◌, Option, none,
  some, ltb, leb, ◌==◌, if◌then◌else◌, length,
}
use small_http_server.Base.Int.{ℤ, pos, negsuc}
use small_http_server.Exceptions.{Result, ok, throw, out_of_range, ◌>>=◌}
use small_http_server.Text.{Buffer, codes, str_eq}
use small_http_server.Net.ServerSocket.{ip4}

-- struct Option
pub record ServerOption : Type 0 where
  pub family_address : Buffer
  pub ip_address : Buffer
  pub port : ℤ
  pub directory : Buffer
  pub is_secure : Bool

unfoldable pub secure_to_bool : Buffer → Bool
secure_to_bool secure = str_eq secure (codes "true")

-- isspace and isdigit in the "C" locale
abbrev pub is_space : ℕ → Bool
is_space c = c == b' ' || (leb 9 c && leb c 13)

abbrev pub is_digit : ℕ → Bool
is_digit c = leb b'0' c && leb c b'9'

-- The digits that atoi reads, after `acc`.
unfoldable pub read_digits : ℕ → Buffer → ℕ
read_digits acc [] = acc
read_digits acc (c ∷ s) = if is_digit c then read_digits (acc * 10 + (c - b'0')) s else acc

abbrev pub negate : ℕ → ℤ
negate zero = pos 0
negate (suc n) = negsuc n

unfoldable pub read_signed : Buffer → ℤ
unfolding read_digits
read_signed [] = pos 0
read_signed (c ∷ s) =
    if c == b'-'
    then negate (read_digits 0 s)
    else if c == b'+'
    then pos (read_digits 0 s)
    else pos (read_digits 0 (c ∷ s))

-- atoi, whose result is only defined where it is an int.
unfoldable pub atoi : Buffer → ℤ
unfolding read_signed
atoi [] = pos 0
atoi (c ∷ s) = let rest = atoi s in if is_space c then rest else read_signed (c ∷ s)

abbrev pub command_option : ServerOption
command_option = record {
  family_address = ip4;
  ip_address = codes "127.0.0.1";
  port = pos 2000;
  directory = codes "/home/denis/Stepick/Final";
  is_secure = false;
}

-- A key that getopt answers, with `optarg`.
pub data Key : Type 0 where
  key_h key_p key_d : Buffer → Key
  unknown : Key

-- The switch of the constructor.
unfoldable pub take_key : ServerOption → Key → ServerOption
unfolding atoi
take_key option (key_h address) = record option { ip_address = address }
take_key option (key_p port) = record option { port = atoi port }
take_key option (key_d directory) = record option { directory = directory }
take_key option unknown = option

-- The loop of the constructor.
unfoldable pub take_keys : ServerOption → List Key → ServerOption
unfolding take_key
take_keys option [] = option
take_keys option (key ∷ keys) = take_keys (take_key option key) keys

-- What the code uses of the JSON library: the elements of a value, and the member of a name as a
-- string or as an int, which throws where the value has none of that type.
pub record Json : Type 1 where
  pub Value : Type 0
  pub elements : Value → List Value
  pub text_at : Value → Buffer → Result Buffer
  pub int_at : Value → Buffer → Result ℤ

module _ (json : Json) where
  open json use {Value, elements, text_at, int_at}

  unfoldable pub read_option : Value → Result ServerOption
  unfolding secure_to_bool
  read_option s = do
    family_address ← text_at s (codes "ipfamily")
    ip_address ← text_at s (codes "address")
    port ← int_at s (codes "port")
    directory ← text_at s (codes "directory")
    secure ← text_at s (codes "secure")
    ok (record {
      family_address = family_address;
      ip_address = ip_address;
      port = port;
      directory = directory;
      is_secure = secure_to_bool secure;
    })

  unfoldable pub read_options : List Value → Result (List ServerOption)
  unfolding read_option
  read_options [] = ok []
  read_options (s ∷ ss) = do
    option ← read_option s
    options ← read_options ss
    ok (option ∷ options)

  -- LoadConfig; `file` is what the library reads from config.json, `none` where that is not opened,
  -- and its parsing may throw.
  unfoldable pub load_config : Option (Result Value) → ServerOption → Result (List ServerOption)
  unfolding read_options
  load_config none def_option = ok (def_option ∷ [])
  load_config (some file) def_option = do j ← file; read_options (elements j)

  -- The constructor.
  unfoldable pub create : List Key → Option (Result Value) → Result (List ServerOption)
  unfolding load_config take_keys
  create keys file = load_config file (take_keys command_option keys)

-- `m_options[index]`, which is undefined out of range: `none`.
unfoldable pub get_option : List ServerOption → ℕ → Option ServerOption
get_option [] index = none
get_option (o ∷ os) zero = some o
get_option (o ∷ os) (suc index) = get_option os index

unfoldable pub get_ip_family : List ServerOption → ℕ → Option Buffer
unfolding get_option
get_ip_family options index =
    Option.map (λ (o : ServerOption). o.family_address) (get_option options index)

unfoldable pub get_ip : List ServerOption → ℕ → Option Buffer
unfolding get_option
get_ip options index = Option.map (λ (o : ServerOption). o.ip_address) (get_option options index)

unfoldable pub get_port : List ServerOption → ℕ → Option ℤ
unfolding get_option
get_port options index = Option.map (λ (o : ServerOption). o.port) (get_option options index)

unfoldable pub get_directory : List ServerOption → ℕ → Option Buffer
unfolding get_option
get_directory options index =
    Option.map (λ (o : ServerOption). o.directory) (get_option options index)

unfoldable pub is_secure : List ServerOption → ℕ → Option Bool
unfolding get_option
is_secure options index = Option.map (λ (o : ServerOption). o.is_secure) (get_option options index)

unfoldable pub get_size : List ServerOption → ℕ
get_size options = length options

-- The destructor does nothing of its own.
abbrev pub destroy : List ServerOption → Unit {0}
destroy options = tt
