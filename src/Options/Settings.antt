-- ===== src/Options/Settings.antt =====
-- Where the settings come from.
use mathlib.Core.Option
use small_http_server.Base.{
  ℕ, ◌≡◌, refl, sym, ap, ◌∙◌, ◌↔◌, List, [], ◌∷◌, Option, none, some, arith, map, All, true, false,
  ◌==◌, ◌*◌, ◌+◌, ◌-◌,
}
use small_http_server.Base.Int.{ℤ, pos}
use small_http_server.Exceptions.{Result, ok, throw, ◌>>=◌}
use small_http_server.Text.{Buffer, to_string}
use small_http_server.Text.Decimal.{IsDigit, value_from, to_string-value, to_string-IsDigit}
use small_http_server.Options.{
  ServerOption, Key, key_h, key_p, key_d, unknown, command_option, take_key, take_keys, Json,
  read_option, read_options, load_config, create, atoi, read_signed, read_digits, is_digit,
  is_space,
}

-- The last argument that a list of keys gives to a setting.
abbrev pub last_of : (Key → Option Buffer) → List Key → Option Buffer
last_of f [] = none
last_of f (key ∷ keys) = elim (last_of f keys) [ some argument ↦ some argument | none ↦ f key ]

abbrev pub address_of : Key → Option Buffer
address_of (key_h address) = some address
address_of (key_p port) = none
address_of (key_d directory) = none
address_of unknown = none

abbrev pub port_of : Key → Option Buffer
port_of (key_h address) = none
port_of (key_p port) = some port
port_of (key_d directory) = none
port_of unknown = none

abbrev pub directory_of : Key → Option Buffer
directory_of (key_h address) = none
directory_of (key_p port) = none
directory_of (key_d directory) = some directory
directory_of unknown = none

-- An option with the settings that a list of keys gives.
abbrev pub with_keys : ServerOption → List Key → ServerOption
with_keys option keys = record option {
  ip_address = Option.get_or (last_of address_of keys) option.ip_address;
  port = Option.get_or (Option.map atoi (last_of port_of keys)) option.port;
  directory = Option.get_or (last_of directory_of keys) option.directory;
}

get_or-orelse :
    (o e : Option Buffer) (d : Buffer)
    → Option.get_or {A = Buffer} (elim o [ some a ↦ some a | none ↦ e ]) d
      ≡ Option.get_or o (Option.get_or e d)
get_or-orelse none e d = refl
get_or-orelse (some a) e d = refl

get_or-orelse_map :
    (o e : Option Buffer) (d : ℤ)
    → Option.get_or (Option.map atoi (elim o [ some a ↦ some a | none ↦ e ])) d
      ≡ Option.get_or (Option.map atoi o) (Option.get_or (Option.map atoi e) d)
get_or-orelse_map none e d = refl
get_or-orelse_map (some a) e d = refl

-- An option that differs from another in three settings.
abbrev with_settings : ServerOption → Buffer → ℤ → Buffer → ServerOption
with_settings option address port directory = record option {
  ip_address = address;
  port = port;
  directory = directory;
}

settings_cons :
    (option : ServerOption) (key : Key) (keys : List Key)
    → with_keys option (key ∷ keys)
      ≡ with_settings option
          (Option.get_or
            (last_of address_of keys)
            (Option.get_or (address_of key) option.ip_address))
          (Option.get_or
            (Option.map atoi (last_of port_of keys))
            (Option.get_or (Option.map atoi (port_of key)) option.port))
          (Option.get_or
            (last_of directory_of keys)
            (Option.get_or (directory_of key) option.directory))
settings_cons option key keys =
    ap
      (λ (a : Buffer).
        with_settings option a
          (Option.get_or (Option.map atoi (last_of port_of (key ∷ keys))) option.port)
          (Option.get_or (last_of directory_of (key ∷ keys)) option.directory))
      (get_or-orelse (last_of address_of keys) (address_of key) option.ip_address)
    ∙ ap
        (λ (p : ℤ).
          with_settings option
            (Option.get_or (last_of address_of keys)
              (Option.get_or (address_of key) option.ip_address))
            p (Option.get_or (last_of directory_of (key ∷ keys)) option.directory))
        (get_or-orelse_map (last_of port_of keys) (port_of key) option.port)
    ∙ ap
        (with_settings option
          (Option.get_or (last_of address_of keys)
            (Option.get_or (address_of key) option.ip_address))
          (Option.get_or (Option.map atoi (last_of port_of keys))
            (Option.get_or (Option.map atoi (port_of key)) option.port)))
        (get_or-orelse (last_of directory_of keys) (directory_of key) option.directory)

with_keys-cons :
    (option : ServerOption) (key : Key) (keys : List Key)
    → with_keys (take_key option key) keys ≡ with_keys option (key ∷ keys)
unfolding take_key
with_keys-cons option key keys =
    elim key as (λ k. with_keys (take_key option k) keys ≡ with_keys option (k ∷ keys)) [
      | key_h address ↦ sym (settings_cons option (key_h address) keys)
      | key_p port ↦ sym (settings_cons option (key_p port) keys)
      | key_d directory ↦ sym (settings_cons option (key_d directory) keys)
      | unknown ↦ sym (settings_cons option unknown keys)
    ]

take_keys-last :
    (option : ServerOption) (keys : List Key) → take_keys option keys ≡ with_keys option keys
unfolding take_keys
take_keys-last option [] = refl
take_keys-last option (key ∷ keys) =
    take_keys-last (take_key option key) keys ∙ with_keys-cons option key keys

-- Digits are read by atoi as the number.
read_digits-value : (s : Buffer) (acc : ℕ) → All IsDigit s → read_digits acc s ≡ value_from acc s
unfolding read_digits value_from
read_digits-value [] acc h = refl
read_digits-value (c ∷ s) acc (d, h) =
    let digit : is_digit c ≡ true = ground arith in
    rw digit (read_digits-value s (acc * 10 + (c - 48)) h)

atoi-digits : (s : Buffer) → All IsDigit s → atoi s ≡ pos (value_from 0 s)
unfolding atoi read_signed value_from
atoi-digits [] h = refl
atoi-digits (c ∷ s) (d, h) =
    let no_space : is_space c ≡ false = ground arith in
    let no_minus : (c == b'-') ≡ false = ground arith in
    let no_plus : (c == b'+') ≡ false = ground arith in
    rw (no_space, no_minus, no_plus) (ap pos (read_digits-value (c ∷ s) 0 (d, h)))

-- atoi reads back the number that std::to_string has written.
pub atoi-to_string : (n : ℕ) → atoi (to_string n) ≡ pos n
atoi-to_string n = atoi-digits (to_string n) (to_string-IsDigit n) ∙ ap pos (to_string-value n)

-- One element more.
read_options_step :
    (r : Result ServerOption) (rs : Result (List ServerOption))
    (results : List (Result ServerOption))
    → ((os : List ServerOption) → (rs ≡ ok os) ↔ (results ≡ map ok os))
    → (os : List ServerOption)
    → ((r >>= λ o. rs >>= λ more. ok (o ∷ more)) ≡ ok os) ↔ (r ∷ results ≡ map ok os)
read_options_step (throw e) rs results h [] = (λ x. cc, λ x. cc)
read_options_step (throw e) rs results h (o ∷ os) = (λ x. cc, λ x. cc)
read_options_step (ok a) (throw e) results h [] = (λ x. cc, λ x. cc)
read_options_step (ok a) (throw e) results h (o ∷ os) = (λ x. cc, λ x. cc ((h os).1 (cc x)))
read_options_step (ok a) (ok more) results h [] = (λ x. cc, λ x. cc)
read_options_step (ok a) (ok more) results h (o ∷ os) =
    (λ x. cc (x, (h os).0 (cc x)), λ x. cc (x, (h os).1 (cc x)))

module _ (json : Json) where
  open json use {Value, elements}

  -- The options of a configuration are those of its elements, in order; it is refused where one of
  -- them is.
  pub read_options_iff :
      (ss : List Value) (os : List ServerOption)
      → (read_options json ss ≡ ok os) ↔ (map (read_option json) ss ≡ map ok os)
  unfolding read_options
  read_options_iff [] [] = (λ e. refl, λ e. refl)
  read_options_iff [] (o ∷ os) = (λ e. cc, λ e. cc)
  read_options_iff (s ∷ ss) os =
      read_options_step (read_option json s) (read_options json ss) (map (read_option json) ss)
        (read_options_iff ss) os

  -- Where config.json is not opened there is one option, with the last address, port and directory
  -- of the command line, and with the default of each that it does not give.
  pub create-no_file :
      (keys : List Key) → create json keys none ≡ ok (with_keys command_option keys ∷ [])
  unfolding create load_config
  create-no_file keys = ap (λ (o : ServerOption). ok (o ∷ [])) (take_keys-last command_option keys)

  -- Where it is opened the command line does not count: the options are those of the elements of
  -- the file, in order, and the file is refused where an element is.
  pub create-file :
      (keys : List Key) (j : Value) (os : List ServerOption)
      → (create json keys (some (ok j)) ≡ ok os) ↔ (map (read_option json) (elements j) ≡ map ok os)
  unfolding create load_config
  create-file keys j os = read_options_iff (elements j) os
