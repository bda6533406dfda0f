-- ===== src/Keyring/Env.antt =====
-- The keyring from the environment: `CookieKeyringFromEnv`, `parseCookieKey` and
-- `GenerateCookieKey`. The environment is the list of "name=value" strings; `parse_time` is
-- time.Parse under RFC 3339.
pub mod Parse
use howdah.Base.{
  ℕ, List, [], ◌∷◌, ◌++◌, Bool, true, false, ◌&&◌, ◌||◌, Option, none, some, ltb, length, ◌==◌,
  nat_eq, if◌then◌else◌,
}
use howdah.Base.Bytes.{Bytes, bytes, bytes_eq, has_prefix}
use howdah.Clock.{Time}
use howdah.Crypto.{Crypto}
use howdah.Encoding.Base64.{std_encode, std_decode}
use howdah.Errors.{lit, raw, message, wrap, wrapped, Result, ok, err, ◌>>=◌}
use howdah.Keyring.{
  CookieKey, CookieKeyring, Selected, cookie_key_secret_length, new_cookie_keyring,
}

-- `strings.Cut` at a one-byte separator
unfoldable pub cut : ℕ → Bytes → Option (Bytes × Bytes)
cut sep [] = none
cut sep (c ∷ s) =
    if c == sep
    then some ([], s)
    else elim (cut sep s) [ none ↦ none | some (before, after) ↦ some (c ∷ before, after) ]

-- The part before the separator, which is the whole where there is none.
unfoldable pub cut_before : ℕ → Bytes → Bytes
unfolding cut
cut_before sep s = elim (cut sep s) [ none ↦ s | some (before, _) ↦ before ]

-- Go's order on strings
unfoldable pub bytes_ltb : Bytes → Bytes → Bool
bytes_ltb [] [] = false
bytes_ltb [] (d ∷ t) = true
bytes_ltb (c ∷ s) [] = false
bytes_ltb (c ∷ s) (d ∷ t) = ltb c d || (c == d && bytes_ltb s t)

unfoldable pub insert_name : Bytes → List Bytes → List Bytes
unfolding bytes_ltb
insert_name name [] = name ∷ []
insert_name name (other ∷ rest) =
    if bytes_ltb other name then other ∷ insert_name name rest else name ∷ other ∷ rest

-- `slices.Sort`
unfoldable pub sort_names : List Bytes → List Bytes
unfolding insert_name
sort_names [] = []
sort_names (name ∷ rest) = insert_name name (sort_names rest)

-- `os.Getenv`: the first entry of the name, and the empty string where there is none.
unfoldable pub getenv : List Bytes → Bytes → Bytes
unfolding cut
getenv [] name = []
getenv (entry ∷ env) name = elim (cut b'=' entry) [
  | none ↦ getenv env name
  | some (key, value) ↦ if key == name then value else getenv env name
]

-- The loop that collects the names of the variables under the prefix.
unfoldable pub key_names : Bytes → List Bytes → List Bytes
unfolding cut_before has_prefix
key_names prefix [] = []
key_names prefix (entry ∷ env) =
    let name = cut_before b'=' entry in
    let rest = key_names prefix env in
    if has_prefix name prefix && ltb (length prefix) (length name) then name ∷ rest else rest

module _ (parse_time : Bytes → Result Time) where
  abbrev pub decoded : Time → Option Bytes → Result CookieKey
  decoded use_after none = err (message (lit "decode secret" ∷ []))
  decoded use_after (some secret) =
      if length secret == cookie_key_secret_length
      then ok (record { use_after = use_after; secret = secret })
      else err (message (lit "secret must be 32 bytes" ∷ []))

  unfoldable pub parse_cookie_key : Bytes → Result CookieKey
  unfolding cut std_decode
  parse_cookie_key value = elim (cut b'_' value) [
    | none ↦ err (
        message (
          lit "expected an RFC 3339 timestamp and a base64 secret separated by an underscore" ∷ []))
    | some (timestamp, secret) ↦ do
      use_after ← wrapped (lit "parse use-after timestamp" ∷ []) (parse_time timestamp)
      decoded use_after (std_decode secret)
  ]

  unfoldable pub parse_keys : List Bytes → List Bytes → Result (List (CookieKey × Bytes))
  unfolding parse_cookie_key getenv
  parse_keys env [] = ok []
  parse_keys env (name ∷ names) = do
    key ← wrapped (raw name ∷ []) (parse_cookie_key (getenv env name))
    keys ← parse_keys env names
    ok ((key, name) ∷ keys)

  module _ (c : Crypto) where
    abbrev pub from_names :
        Bytes → List Bytes → List Bytes → Time → Result (CookieKeyring × Selected)
    from_names prefix env [] now = err (
        message (
          lit "no cookie keys configured, expected at least one "
          ∷ raw prefix
          ∷ lit "* environment variable"
          ∷ []))
    from_names prefix env (name ∷ names) now = do
      keys ← parse_keys env (sort_names (name ∷ names))
      new_cookie_keyring c keys now

    -- The prefix is that of `cookieKeyringConf`.
    unfoldable pub cookie_keyring_from_env :
        Bytes → List Bytes → Time → Result (CookieKeyring × Selected)
    unfolding key_names sort_names parse_keys new_cookie_keyring
    cookie_keyring_from_env [] env now =
        err (message (lit "the cookie key environment prefix must not be empty" ∷ []))
    cookie_keyring_from_env (p ∷ prefix) env now =
        from_names (p ∷ prefix) env (key_names (p ∷ prefix) env) now

abbrev pub default_cookie_key_prefix : Bytes
default_cookie_key_prefix = bytes "COOKIE_KEY_"

-- `random` is what rand.Read gives for the 32 bytes.
unfoldable pub generate_cookie_key : Result Bytes → Result Bytes
unfolding std_encode
generate_cookie_key random = do
  secret ← wrapped (lit "read random bytes" ∷ []) random
  ok (std_encode secret)
