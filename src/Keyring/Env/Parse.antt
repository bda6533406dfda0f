-- ===== src/Keyring/Env/Parse.antt =====
-- What `parseCookieKey` makes of a value that `GenerateCookieKey` helped to write.
use howdah.Base.{ℕ, [], ◌∷◌, ◌++◌, ◌≡◌, arith, some, false, length, nat_eq}
use howdah.Base.Bytes.{Bytes, IsBytes, has_byte}
use howdah.Clock.{Time}
use howdah.Encoding.Base64.RoundTrip.{std_decode-encode}
use howdah.Errors.{Result, ok}
use howdah.Keyring.{cookie_key_secret_length}
use howdah.Keyring.Env.{cut, parse_cookie_key, generate_cookie_key}

cut-append : (sep : ℕ) (s t : Bytes) → has_byte s sep ≡ false → cut sep (s ++ sep ∷ t) ≡ some (s, t)
unfolding cut has_byte
cut-append sep [] t h = ground arith
cut-append sep (c ∷ s) t h = ground (arith, cut-append sep s t)

-- A value written as a timestamp without an underscore, an underscore and a generated secret is
-- parsed back to the timestamp's instant and the secret, where the random source gave 32 bytes.
pub parse_cookie_key-generate :
    (parse_time : Bytes → Result Time) (timestamp random written : Bytes) (use_after : Time)
    → parse_time timestamp ≡ ok use_after
    → has_byte timestamp b'_' ≡ false
    → length random ≡ cookie_key_secret_length
    → IsBytes random
    → generate_cookie_key (ok random) ≡ ok written
    → parse_cookie_key parse_time (timestamp ++ b'_' ∷ written)
      ≡ ok (record { use_after = use_after; secret = random })
unfolding parse_cookie_key generate_cookie_key
parse_cookie_key-generate parse_time timestamp random written use_after p n len h g =
    ground (arith, cut-append b'_' timestamp written n, std_decode-encode random h)
