-- ===== src/Tests/Keyrings.antt =====
-- The keyring at the two keys of the tests, and a key from its written form.
use howdah.Base.{[], ◌∷◌, ◌++◌, ◌≡◌, ◌≢◌, ◌≤◌, ◌↔◌, refl, arith, none, some}
use howdah.Base.Bytes.{Bytes, bytes, has_byte}
use howdah.Clock.{Time}
use howdah.Errors.{Result, ok}
use howdah.Keyring.{KeyEntry, CookieKeyring, Selected, sealing_key, eligible, new_cookie_keyring}
use howdah.Keyring.Acceptance.{
  IsAcceptable, HasEligible, IsWellFormed, new_cookie_keyring-IsWellFormed, new_cookie_keyring_iff,
}
use howdah.Keyring.Selection.{IsSealingKey, sealing_key-IsSealingKey, sealing_key_monotone}
use howdah.Encoding.Base64.{encode_padded, char_of}
use howdah.Keyring.Env.{parse_cookie_key, generate_cookie_key}
use howdah.Keyring.Env.Parse.{parse_cookie_key-generate}
use howdah.Tests.Toy.{
  repeat, toy, toy_keys, toy_keyring, toy_selected, old_entry, new_entry, toy_built,
  toy_keyring-IsKeyring,
}

new_cookie_keyring-IsWellFormed_example :
    IsWellFormed toy_keyring
    × ((e : KeyEntry) × (sealing_key (some toy_keyring) 150 ≡ some e)
        × (toy_selected.kid ≡ e.kid)
        × (toy_selected.use_after ≡ e.use_after))
new_cookie_keyring-IsWellFormed_example =
    new_cookie_keyring-IsWellFormed toy toy_keys 150 toy_keyring toy_selected toy_built

new_cookie_keyring_iff_example :
    ((r : CookieKeyring × Selected) × (new_cookie_keyring toy toy_keys 150 ≡ ok r))
    ↔ ((toy_keys ≢ []) × IsAcceptable toy toy_keys × HasEligible toy toy_keys 150)
new_cookie_keyring_iff_example = new_cookie_keyring_iff toy toy_keys 150

old_seals : sealing_key (some toy_keyring) 150 ≡ some old_entry
unfolding sealing_key eligible
old_seals = refl

new_seals : sealing_key (some toy_keyring) 200 ≡ some new_entry
unfolding sealing_key eligible
new_seals = refl

none_seals : sealing_key (some toy_keyring) 99 ≡ none
unfolding sealing_key eligible
none_seals = refl

sealing_key-IsSealingKey_example : IsSealingKey toy_keyring.by_use_after 150 old_entry
sealing_key-IsSealingKey_example =
    sealing_key-IsSealingKey toy_keyring 150 old_entry toy_keyring-IsKeyring.well_formed.descending
      old_seals

sealing_key_monotone_example :
    (f : KeyEntry) × (sealing_key (some toy_keyring) 250 ≡ some f) × (100 ≤ f.use_after)
sealing_key_monotone_example =
    sealing_key_monotone toy_keyring 150 250 old_entry toy_keyring-IsKeyring.well_formed.descending
      (omega arith) old_seals

-- A clock that reads the one timestamp of the test.
abbrev read_time : Bytes → Result Time
read_time text = ok 7

abbrev written : Bytes
written = bytes "AgICAgICAgICAgICAgICAgICAgICAgICAgICAgICAgI="

generated : generate_cookie_key (ok (repeat 32 2)) ≡ ok written
unfolding generate_cookie_key encode_padded char_of
generated = refl

parse_cookie_key-generate_example :
    parse_cookie_key read_time (bytes "2026-01-01T00:00:00Z" ++ b'_' ∷ written)
    ≡ ok (record { use_after = 7; secret = repeat 32 2 })
parse_cookie_key-generate_example =
    parse_cookie_key-generate read_time (bytes "2026-01-01T00:00:00Z") (repeat 32 2) written 7 refl
      (unfold has_byte in refl) refl (ground arith) generated
