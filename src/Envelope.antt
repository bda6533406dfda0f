-- ===== src/Envelope.antt =====
-- cookie_crypto.go: the sealed envelope, its reader and writer.
pub mod Domain
pub mod Opening
pub mod Sealing
pub mod RoundTrip
pub mod Cookie
use howdah.Base.{
  ℕ, List, [], ◌∷◌, ◌++◌, ◌+◌, Bool, true, false, ◌&&◌, ◌||◌, not, Option, none, some, ltb, length,
  take, drop, ◌==◌, nat_eq, if◌then◌else◌,
}
use howdah.Base.Bytes.{Bytes, bytes_eq}
use howdah.Base.Dict.{lookup}
use howdah.Clock.{Time}
use howdah.Crypto.{Crypto}
use howdah.Encoding.Base64.{raw_url_encode, raw_url_decode}
use howdah.Encoding.Hex.{hex}
use howdah.Errors.{
  lit, raw, Error, sentinel, wrap, wrapped, Sentinel, not_sealed, unknown_version, unknown_key,
  wrong_session_kind, authentication, no_cookie_keyring, Result, ok, err, ◌>>=◌,
}
use howdah.Keyring.{CookieKeyring, KeyEntry, cookie_key_id_length, sealing_key}

abbrev pub cookie_envelope_v1 : ℕ
cookie_envelope_v1 = 1

abbrev pub cookie_envelope_max_version : ℕ
cookie_envelope_max_version = 16

abbrev pub cookie_nonce_length : ℕ
cookie_nonce_length = 12

abbrev pub cookie_tag_length : ℕ
cookie_tag_length = 16

abbrev pub cookie_envelope_header_length : ℕ
cookie_envelope_header_length = 1 + 1 + cookie_key_id_length + cookie_nonce_length

-- A sessionKind is a byte; these two are ours.
abbrev pub SessionKind : Type 0
SessionKind = ℕ

abbrev pub session_kind_payload : SessionKind
session_kind_payload = 1

abbrev pub session_kind_handle : SessionKind
session_kind_handle = 2

abbrev pub is_valid_kind : SessionKind → Bool
is_valid_kind k = k == session_kind_payload || k == session_kind_handle

-- `raw[i]`, where the length has been checked.
abbrev pub byte_at : Bytes → ℕ → ℕ
byte_at [] i = 0
byte_at (b ∷ bs) ℕ.zero = b
byte_at (b ∷ bs) (ℕ.suc i) = byte_at bs i

unfoldable pub cookie_envelope_aad : ℕ → SessionKind → Bytes → Bytes → Bytes
cookie_envelope_aad version kind kid domain = version ∷ kind ∷ (kid ++ domain)

-- The map of a keyring; a nil keyring has been refused before it is read.
abbrev pub key_map : Option CookieKeyring → List (Bytes × KeyEntry)
key_map none = []
key_map (some k) = k.keys

-- A plaintext, the id of the key it was sealed under, and whether that is the current key.
pub record Opened : Type 0 where
  pub plaintext : Bytes
  pub kid : Bytes
  pub current : Bool

abbrev pub is_envelope : Bytes → Bool
is_envelope value = not (
    ltb (length value) (cookie_envelope_header_length + cookie_tag_length)
    || byte_at value 0 == 0
    || ltb cookie_envelope_max_version (byte_at value 0)
    || not (is_valid_kind (byte_at value 1)))

abbrev pub kid_of : Bytes → Bytes
kid_of value = take cookie_key_id_length (drop 2 value)

abbrev pub nonce_of : Bytes → Bytes
nonce_of value = take cookie_nonce_length (drop (2 + cookie_key_id_length) value)

abbrev pub authenticated : KeyEntry → Bytes → Option Bytes → Result Opened
authenticated sealing kid none =
    err (wrap (lit "key " ∷ raw (hex kid) ∷ []) (sentinel authentication))
authenticated sealing kid (some plaintext) =
    ok (record { plaintext = plaintext; kid = kid; current = kid == sealing.kid })

module _ (c : Crypto) where
  abbrev pub seal_with : KeyEntry → SessionKind → Bytes → Bytes → Bytes → Bytes
  seal_with key kind domain plaintext nonce =
      cookie_envelope_v1
      ∷ kind
      ∷ (key.kid
          ++ (nonce
              ++ c.aead_seal key.aead nonce plaintext
                  (cookie_envelope_aad cookie_envelope_v1 kind key.kid domain)))

module _ (c : Crypto) (k : Option CookieKeyring) (now : Time) where
  -- `random` is what rand.Read gives for the nonce.
  unfoldable pub seal_kind_raw : SessionKind → Bytes → Bytes → Result Bytes → Result (Bytes × Bytes)
  seal_kind_raw kind domain plaintext random = elim (sealing_key k now) [
    | none ↦ err (sentinel no_cookie_keyring)
    | some key ↦ do
      nonce ← wrapped (lit "generate nonce" ∷ []) random
      ok (seal_with c key kind domain plaintext nonce, key.kid)
  ]

  unfoldable pub seal_kind : SessionKind → Bytes → Bytes → Result Bytes → Result Bytes
  unfolding seal_kind_raw
  seal_kind kind domain plaintext random = do
    sealed ← seal_kind_raw kind domain plaintext random
    ok (raw_url_encode sealed.0)

  unfoldable pub seal : Bytes → Bytes → Result Bytes → Result Bytes
  unfolding seal_kind
  seal domain plaintext random = seal_kind session_kind_payload domain plaintext random

  abbrev pub open_with : KeyEntry → SessionKind → Bytes → Bytes → Option KeyEntry → Result Opened
  open_with sealing kind domain value none =
      err (wrap (lit "key " ∷ raw (hex (kid_of value)) ∷ []) (sentinel unknown_key))
  open_with sealing kind domain value (some key) = authenticated sealing (kid_of value) (
      c.aead_open key.aead (nonce_of value) (drop cookie_envelope_header_length value)
        (cookie_envelope_aad (byte_at value 0) kind (kid_of value) domain))

  unfoldable pub open_kind_raw : SessionKind → Bytes → Bytes → Result Opened
  unfolding lookup
  open_kind_raw kind domain value = elim (sealing_key k now) [
    | none ↦ err (sentinel no_cookie_keyring)
    | some sealing ↦
        if is_envelope value
        then if byte_at value 0 == cookie_envelope_v1
          then if byte_at value 1 == kind
            then open_with sealing kind domain value (lookup (kid_of value) (key_map k))
            else err (wrap (lit "expected another kind" ∷ []) (sentinel wrong_session_kind))
          else err (wrap (lit "version" ∷ []) (sentinel unknown_version))
        else err (sentinel not_sealed)
  ]

  abbrev pub decoded : SessionKind → Bytes → Option Bytes → Result (Bytes × Bool)
  decoded kind domain none = err (sentinel not_sealed)
  decoded kind domain (some value) = do
    opened ← open_kind_raw kind domain value
    ok (opened.plaintext, opened.current)

  unfoldable pub open_kind : SessionKind → Bytes → Bytes → Result (Bytes × Bool)
  unfolding open_kind_raw
  open_kind kind domain value = decoded kind domain (raw_url_decode value)

  unfoldable pub open_value : Bytes → Bytes → Result (Bytes × Bool)
  unfolding open_kind
  open_value domain value = open_kind session_kind_payload domain value
