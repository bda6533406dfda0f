-- ===== src/Envelope/Opening.antt =====
-- What `openKindRaw` opens, and why it refuses what it does not.
use howdah.Base.{
  ◌≡◌, ◌≢◌, ◌≤◌, ◌⊎◌, true, false, arith, none, some, inl, inr, length, drop, Bool-cases,
  Option-cases, ◌==◌, nat_eq,
}
use howdah.Base.Bytes.{Bytes, bytes_eq}
use howdah.Base.Dict.{lookup}
use howdah.Clock.{Time}
use howdah.Crypto.{Crypto}
use howdah.Errors.{
  Error, Sentinel, not_sealed, unknown_version, unknown_key, wrong_session_kind, authentication, is,
  err,
}
use howdah.Keyring.{CookieKeyring, KeyEntry, sealing_key}
use howdah.Envelope.{
  SessionKind, session_kind_payload, session_kind_handle, byte_at, kid_of, nonce_of, is_envelope,
  open_kind_raw, cookie_envelope_aad, cookie_envelope_v1,
}

-- The shape of an envelope: long enough for the header and the tag, a plausible version, and a
-- kind that is one of ours.
pub record IsShaped (value : Bytes) : Type 0 where
  pub full : 38 ≤ length value
  pub version_pos : 1 ≤ byte_at value 0
  pub version_le : byte_at value 0 ≤ 16
  pub kind : (byte_at value 1 ≡ session_kind_payload) ⊎ (byte_at value 1 ≡ session_kind_handle)

is_envelope-IsShaped : (value : Bytes) → is_envelope value ≡ true → IsShaped value
is_envelope-IsShaped value h = ground arith

not_envelope : (value : Bytes) → is_envelope value ≡ false → ¬ IsShaped value
not_envelope value h s = ground arith

module _ (c : Crypto) (k : CookieKeyring) (now : Time) (kind : SessionKind)
    (domain value : Bytes) where
  -- The reason for a refusal: the first of the checks that the value fails.
  pub data Refusal : Sentinel → Type 0 where
    shapeless : ¬ IsShaped value → Refusal not_sealed
    versioned : IsShaped value → byte_at value 0 ≢ 1 → Refusal unknown_version
    other_kind :
        IsShaped value → byte_at value 0 ≡ 1 → byte_at value 1 ≢ kind → Refusal wrong_session_kind
    keyless :
        IsShaped value
        → byte_at value 0 ≡ 1
        → byte_at value 1 ≡ kind
        → lookup (kid_of value) k.keys ≡ none
        → Refusal unknown_key
    forged :
        (key : KeyEntry)
        → IsShaped value
        → byte_at value 0 ≡ 1
        → byte_at value 1 ≡ kind
        → lookup (kid_of value) k.keys ≡ some key
        → c.aead_open key.aead
            (nonce_of value)
            (drop 22 value)
            (cookie_envelope_aad 1 kind (kid_of value) domain)
          ≡ none
        → Refusal authentication

module _ (c : Crypto) (k : CookieKeyring) (now : Time) (sealing : KeyEntry) (kind : SessionKind)
    (domain value : Bytes) (e : Error) (has : sealing_key (some k) now ≡ some sealing)
    (h : open_kind_raw c (some k) now kind domain value ≡ err e) where
  abbrev Reported : Type 0
  Reported = (s : Sentinel) × Refusal c k now kind domain value s × (is e s ≡ true)

  known_key :
      (key : KeyEntry)
      → is_envelope value ≡ true
      → byte_at value 0 ≡ 1
      → byte_at value 1 ≡ kind
      → lookup (kid_of value) k.keys ≡ some key
      → Reported
  unfolding open_kind_raw is
  known_key key shape version same found =
      elim (Option-cases (
        c.aead_open key.aead (nonce_of value) (drop 22 value)
          (cookie_envelope_aad 1 kind (kid_of value) domain))) [
            | inl failed ↦ (
              authentication,
              forged key (is_envelope-IsShaped value shape) version same found failed,
              ground arith,
            )
            | inr (text, opened) ↦ absurd (ground arith)
          ]

  right_kind : is_envelope value ≡ true → byte_at value 0 ≡ 1 → byte_at value 1 ≡ kind → Reported
  unfolding open_kind_raw is
  right_kind shape version same = elim (Option-cases (lookup (kid_of value) k.keys)) [
    | inl missing ↦
        (unknown_key, keyless (is_envelope-IsShaped value shape) version same missing, ground arith)
    | inr (key, found) ↦ known_key key shape version same found
  ]

  right_version : is_envelope value ≡ true → byte_at value 0 ≡ 1 → Reported
  unfolding open_kind_raw is
  right_version shape version = elim (Bool-cases (byte_at value 1 == kind)) [
    | inl same ↦ right_kind shape version (ground arith)
    | inr other ↦ (
      wrong_session_kind,
      other_kind (is_envelope-IsShaped value shape) version (ground arith),
      ground arith,
    )
  ]

  -- With a key to seal with in the keyring, a refused value is reported by the sentinel of the
  -- first check that it fails: its shape, its version, its kind, its key, its authentication.
  pub open_kind_raw-Refusal : Reported
  unfolding open_kind_raw is
  open_kind_raw-Refusal = elim (Bool-cases (is_envelope value)) [
    | inr no_shape ↦ (not_sealed, shapeless (not_envelope value no_shape), ground arith)
    | inl shape ↦ elim (Bool-cases (byte_at value 0 == cookie_envelope_v1)) [
      | inl version ↦ right_version shape (ground arith)
      | inr other ↦ (
        unknown_version,
        versioned (is_envelope-IsShaped value shape) (ground arith),
        ground arith,
      )
    ]
  ]
