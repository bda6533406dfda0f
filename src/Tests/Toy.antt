-- ===== src/Tests/Toy.antt =====
-- A concrete cipher, hash and payload codec that behave as the program relies on, and the keyring
-- of two keys that the tests use.
use howdah.Base.{
  ℕ, zero, suc, List, [], ◌∷◌, ◌++◌, ◌≡◌, ◌+◌, ◌-◌, ◌%◌, ◌<◌, refl, arith, Option, none, some,
  length, take, length-append, take-append_length, All-append, ap, ◌∙◌, ◌==◌, nat_eq, ==_iff,
  if◌then◌else◌, list_beq,
}
use howdah.Base.Bytes.{Bytes, bytes, bytes_eq, IsBytes}
use howdah.Base.Dict.{lookup, insert}
use howdah.Crypto.{Crypto, IsAead, IsHash}
use howdah.Errors.{ok}
use howdah.Keyring.{
  CookieKey, KeyEntry, CookieKeyring, Selected, new_cookie_keyring, add_key, cookie_key_id, instant,
  sort_latest,
}
use howdah.Keyring.Acceptance.{IsKeyring, new_cookie_keyring-IsKeyring}

unfoldable pub sum : Bytes → ℕ
sum [] = 0
sum (b ∷ bs) = b + sum bs

abbrev pub repeat : ℕ → ℕ → Bytes
repeat zero b = []
repeat (suc n) b = b ∷ repeat n b

length-repeat : (n b : ℕ) → length (repeat n b) ≡ n
length-repeat zero b = refl
length-repeat (suc n) b = ap suc (length-repeat n b)

repeat-IsBytes : (n b : ℕ) → b < 256 → IsBytes (repeat n b)
repeat-IsBytes zero b h = tt
repeat-IsBytes (suc n) b h = (h, repeat-IsBytes n b h)

unfoldable pub tag : Bytes → Bytes → Bytes → Bytes → Bytes
unfolding sum
tag key nonce text aad = repeat 16 ((sum key + sum nonce + sum text + sum aad) % 256)

unfoldable pub toy_seal : Bytes → Bytes → Bytes → Bytes → Bytes
unfolding tag
toy_seal key nonce text aad = text ++ tag key nonce text aad

unfoldable pub toy_open : Bytes → Bytes → Bytes → Bytes → Option Bytes
unfolding toy_seal list_beq
toy_open key nonce sealed aad =
    let text = take (length sealed - 16) sealed in
    if toy_seal key nonce text aad == sealed then some text else none

unfoldable pub toy_hash : Bytes → Bytes
unfolding sum
toy_hash text = repeat 32 (sum text % 256)

unfoldable pub toy : Crypto
unfolding toy_seal toy_open toy_hash
toy = record {
  sha256 = toy_hash;
  cipher_error = λ secret. none;
  gcm_error = λ secret. none;
  aead_seal = toy_seal;
  aead_open = toy_open;
}

length-tag : (key nonce text aad : Bytes) → length (tag key nonce text aad) ≡ 16
unfolding tag
length-tag key nonce text aad = refl

length-toy_seal :
    (key nonce text aad : Bytes) → length (toy_seal key nonce text aad) ≡ length text + 16
unfolding toy_seal
length-toy_seal key nonce text aad =
    omega (arith, length-append text (tag key nonce text aad), length-tag key nonce text aad)

take-toy_seal :
    (key nonce text aad : Bytes)
    → take (length (toy_seal key nonce text aad) - 16) (toy_seal key nonce text aad) ≡ text
unfolding toy_seal
take-toy_seal key nonce text aad =
    let same : length (text ++ tag key nonce text aad) - 16 ≡ length text =
      omega (arith, length-append text (tag key nonce text aad), length-tag key nonce text aad) in
    ap (λ n. take n (text ++ tag key nonce text aad)) same
    ∙ take-append_length text (tag key nonce text aad)

toy_open-toy_seal :
    (key nonce text aad : Bytes) → toy_open key nonce (toy_seal key nonce text aad) aad ≡ some text
unfolding toy_open
toy_open-toy_seal key nonce text aad = ground (
  arith,
  take-toy_seal key nonce text aad,
  ==_iff (toy_seal key nonce text aad) (toy_seal key nonce text aad),
)

toy_seal_of_open :
    (key nonce sealed aad text : Bytes)
    → toy_open key nonce sealed aad ≡ some text
    → sealed ≡ toy_seal key nonce text aad
unfolding toy_open
toy_seal_of_open key nonce sealed aad text h =
    let kept = take (length sealed - 16) sealed in
    ground (arith, ==_iff (toy_seal key nonce kept aad) sealed)

toy_seal-IsBytes :
    (key nonce text aad : Bytes) → IsBytes text → IsBytes (toy_seal key nonce text aad)
unfolding toy_seal tag
toy_seal-IsBytes key nonce text aad h = All-append _ text _ h (repeat-IsBytes 16 _ (omega arith))

pub toy-IsAead : IsAead toy
unfolding toy
toy-IsAead = record {
  aead_open-aead_seal = toy_open-toy_seal;
  aead_seal_of_open = toy_seal_of_open;
  length-aead_seal = length-toy_seal;
  aead_seal-IsBytes = toy_seal-IsBytes;
}

pub toy-IsHash : IsHash toy
unfolding toy toy_hash
toy-IsHash = record {
  length-sha256 = λ text. length-repeat 32 (sum text % 256);
  sha256-IsBytes = λ text. repeat-IsBytes 32 (sum text % 256) (omega arith);
}

-- Two keys, the second to take over at 200.
abbrev pub old_key : CookieKey
old_key = record { use_after = 100; secret = repeat 32 1 }

abbrev pub new_key : CookieKey
new_key = record { use_after = 200; secret = repeat 32 2 }

abbrev pub toy_keys : List (CookieKey × Bytes)
toy_keys = (old_key, bytes "cookie key 1") ∷ (new_key, bytes "cookie key 2") ∷ []

abbrev pub old_entry : KeyEntry
old_entry = record { kid = repeat 8 140; use_after = 100; aead = repeat 32 1 }

abbrev pub new_entry : KeyEntry
new_entry = record { kid = repeat 8 172; use_after = 200; aead = repeat 32 2 }

abbrev pub toy_keyring : CookieKeyring
toy_keyring = record {
  keys = (repeat 8 140, old_entry) ∷ (repeat 8 172, new_entry) ∷ [];
  by_use_after = new_entry ∷ old_entry ∷ [];
}

abbrev pub toy_selected : Selected
toy_selected = record {
  kid = repeat 8 140;
  use_after = 100;
  keyring_size = 2;
  next = some (repeat 8 172, 200);
}

pub toy_built : new_cookie_keyring toy toy_keys 150 ≡ ok (toy_keyring, toy_selected)
unfolding toy new_cookie_keyring add_key lookup insert cookie_key_id instant sort_latest
toy_built = refl

pub toy_keyring-IsKeyring : IsKeyring toy_keyring
toy_keyring-IsKeyring =
    new_cookie_keyring-IsKeyring toy toy_keys 150 toy_keyring toy_selected toy-IsHash toy_built
