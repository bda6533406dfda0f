-- ===== src/Envelope/RoundTrip.antt =====
-- Opening what was sealed, and what it takes for a value to open.
use howdah.Base.{
  ◌≡◌, ◌≤◌, ◌⊎◌, ◌↔◌, true, arith, some, inl, inr, length, drop, All-In, In, sym, ◌∙◌, Option-cases,
  ◌==◌, nat_eq, ==_iff,
}
use howdah.Base.Bytes.{Bytes, bytes_eq}
use howdah.Base.Dict.{lookup}
use howdah.Clock.{Time}
use howdah.Crypto.{Crypto, IsAead}
use howdah.Errors.{ok}
use howdah.Keyring.{CookieKeyring, KeyEntry, sealing_key}
use howdah.Keyring.Acceptance.{IsWellFormed, IsKeyring}
use howdah.Keyring.Selection.{sealing_key-IsSealingKey, sealing_key_monotone}
use howdah.Envelope.{
  SessionKind, session_kind_payload, session_kind_handle, byte_at, kid_of, nonce_of, seal_with,
  Opened, open_kind_raw, cookie_envelope_aad, cookie_envelope_v1, seal_kind_raw,
}
use howdah.Envelope.Sealing.{
  kid_of-layout, nonce_of-layout, text_of-layout, length-layout, layout_of,
}

-- The value was sealed under a key of the keyring, for this kind and this domain.
pub record IsSealed (c : Crypto) (k : CookieKeyring) (kind : SessionKind) (domain value : Bytes)
    (o : Opened) : Type 0 where
  pub key : KeyEntry
  pub listed : In key k.by_use_after
  pub kid : key.kid ≡ o.kid
  pub sealed : value ≡ seal_with c key kind domain o.plaintext (nonce_of value)

module _ (c : Crypto) (k : CookieKeyring) (now : Time) (kind : SessionKind) (domain value : Bytes)
    (o : Opened) where
  -- What has passed when a value opens.
  record Passed : Type 0 where
    sealing : KeyEntry
    key : KeyEntry
    current_key : sealing_key (some k) now ≡ some sealing
    full : 22 ≤ length value
    version : byte_at value 0 ≡ 1
    kind_byte : byte_at value 1 ≡ kind
    found : lookup (kid_of value) k.keys ≡ some key
    opened :
        c.aead_open key.aead
          (nonce_of value)
          (drop 22 value)
          (cookie_envelope_aad 1 kind (kid_of value) domain)
        ≡ some o.plaintext
    kid : o.kid ≡ kid_of value
    current : o.current ≡ (kid_of value == sealing.kid)

  passed_with :
      (sealing key : KeyEntry)
      → sealing_key (some k) now ≡ some sealing
      → lookup (kid_of value) k.keys ≡ some key
      → open_kind_raw c (some k) now kind domain value ≡ ok o
      → Passed
  unfolding open_kind_raw
  passed_with sealing key has found h = record {
    sealing = sealing;
    key = key;
    current_key = has;
    full = ground arith;
    version = ground arith;
    kind_byte = ground arith;
    found = found;
    opened = ground arith;
    kid = ground arith;
    current = ground arith;
  }

  passed : open_kind_raw c (some k) now kind domain value ≡ ok o → Passed
  unfolding open_kind_raw
  passed h = elim (Option-cases (sealing_key (some k) now)) [
    | inl nothing ↦ absurd (ground arith)
    | inr (sealing, has) ↦ elim (Option-cases (lookup (kid_of value) k.keys)) [
      | inl missing ↦ absurd (ground arith)
      | inr (key, found) ↦ passed_with sealing key has found h
    ]
  ]

-- Over an AEAD and a well-formed keyring, whatever opens is an envelope that was sealed under a key of the keyring for the same kind and
-- the same domain, around the plaintext that is returned; it is reported as current exactly when
-- that key is the one to seal with now.
pub open_kind_raw-IsSealed :
    (c : Crypto) (k : CookieKeyring) (now : Time) (kind : SessionKind) (domain value : Bytes)
    (o : Opened)
    → IsAead c
    → IsWellFormed k
    → open_kind_raw c (some k) now kind domain value ≡ ok o
    → IsSealed c k kind domain value o
      × ((sealing : KeyEntry) × (sealing_key (some k) now ≡ some sealing)
          × ((o.current ≡ true) ↔ (o.kid ≡ sealing.kid)))
open_kind_raw-IsSealed c k now kind domain value o v w h =
    let p = passed c k now kind domain value o h in
    let (same, listed) = w.keys_listed (kid_of value) p.key p.found in
    let inner : drop 22 value
        ≡ c.aead_seal p.key.aead (nonce_of value) o.plaintext
            (cookie_envelope_aad 1 kind p.key.kid domain) =
      rw same
        (v.aead_seal_of_open p.key.aead (nonce_of value) (drop 22 value) _ o.plaintext p.opened) in
    (
      record {
        key = p.key;
        listed = listed;
        kid = same ∙ sym p.kid;
        sealed = layout_of value p.full ∙ cc (p.version, p.kind_byte, same, inner);
      },
      (
        p.sealing,
        p.current_key,
        ground (arith, p.current, p.kid, ==_iff (kid_of value) p.sealing.kid),
      ),
    )

-- The result of opening what was sealed under `key` while `sealing` is the key to seal with.
abbrev pub opened_as : KeyEntry → KeyEntry → Bytes → Opened
opened_as key sealing plaintext = record {
  plaintext = plaintext;
  kid = key.kid;
  current = key.kid == sealing.kid;
}

abbrev pub IsOurs : SessionKind → Type 0
IsOurs kind = (kind ≡ session_kind_payload) ⊎ (kind ≡ session_kind_handle)

module _ (c : Crypto) (v : IsAead c) (k : CookieKeyring) (w : IsKeyring k) (kind : SessionKind)
    (domain plaintext nonce : Bytes) (ours : IsOurs kind) (full : length nonce ≡ 12) where
  open-seal_with :
      (later : Time) (key sealing : KeyEntry)
      → In key k.by_use_after
      → sealing_key (some k) later ≡ some sealing
      → open_kind_raw c (some k) later kind domain (seal_with c key kind domain plaintext nonce)
        ≡ ok (opened_as key sealing plaintext)
  unfolding open_kind_raw
  open-seal_with later key sealing listed has =
      let (kid_full, _) = All-In _ key k.by_use_after w.kids listed in
      let aad = cookie_envelope_aad cookie_envelope_v1 kind key.kid domain in
      let text = c.aead_seal key.aead nonce plaintext aad in
      ground (
        arith,
        All-In _ key k.by_use_after w.well_formed.keys_hold listed,
        kid_of-layout 1 kind key.kid nonce text kid_full full,
        nonce_of-layout 1 kind key.kid nonce text kid_full full,
        text_of-layout 1 kind key.kid nonce text kid_full full,
        length-layout 1 kind key.kid nonce text kid_full full,
        v.length-aead_seal key.aead nonce plaintext aad,
        v.aead_open-aead_seal key.aead nonce plaintext aad,
      )

  pub sealed_by :
      (now : Time) (sealed kid : Bytes)
      → seal_kind_raw c (some k) now kind domain plaintext (ok nonce) ≡ ok (sealed, kid)
      → (key : KeyEntry) × (sealing_key (some k) now ≡ some key)
        × (sealed ≡ seal_with c key kind domain plaintext nonce)
        × (kid ≡ key.kid)
  unfolding seal_kind_raw
  sealed_by now sealed kid h = elim (Option-cases (sealing_key (some k) now)) [
    | inl nothing ↦ absurd (ground arith)
    | inr (key, has) ↦ (key, has, ground arith, ground arith)
  ]

-- Over an AEAD, a value of one of the two kinds sealed with a 12-byte nonce by a keyring that was
-- built opens in it, for its kind and domain, at that time and at every later
-- one, also when another key has taken over since; it is reported as current exactly when the key
-- it was sealed under is still the one to seal with.
pub open_kind_raw-seal_kind_raw :
    (c : Crypto) (k : CookieKeyring) (now later : Time) (kind : SessionKind)
    (domain plaintext nonce sealed kid : Bytes)
    → IsAead c
    → IsKeyring k
    → IsOurs kind
    → length nonce ≡ 12
    → now ≤ later
    → seal_kind_raw c (some k) now kind domain plaintext (ok nonce) ≡ ok (sealed, kid)
    → (sealing : KeyEntry) × (sealing_key (some k) later ≡ some sealing)
      × (open_kind_raw c (some k) later kind domain sealed
          ≡ ok (record { plaintext = plaintext; kid = kid; current = kid == sealing.kid }))
open_kind_raw-seal_kind_raw c k now later kind domain plaintext nonce sealed kid v w ours full le
      h =
    let (key, has, made, same) =
      sealed_by c v k w kind domain plaintext nonce ours full now sealed kid h in
    let down = w.well_formed.descending in
    let (sealing, will, _) = sealing_key_monotone k now later key down le has in
    let listed = (sealing_key-IsSealingKey k now key down has).listed in
    (
      sealing,
      will,
      cc (
        made,
        same,
        open-seal_with c v k w kind domain plaintext nonce ours full later key sealing listed will,
      ),
    )

-- A value that opens at two times opens to the same plaintext.
pub open_kind_raw-plaintext :
    (c : Crypto) (k : CookieKeyring) (now later : Time) (kind : SessionKind) (domain value : Bytes)
    (o o' : Opened)
    → open_kind_raw c (some k) now kind domain value ≡ ok o
    → open_kind_raw c (some k) later kind domain value ≡ ok o'
    → o.plaintext ≡ o'.plaintext
open_kind_raw-plaintext c k now later kind domain value o o' h h' =
    let p = passed c k now kind domain value o h in
    let q = passed c k later kind domain value o' h' in cc (p.found, q.found, p.opened, q.opened)
