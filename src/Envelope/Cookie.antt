-- ===== src/Envelope/Cookie.antt =====
-- Envelopes as cookie values, the additional data that binds them, and the two kinds.
use howdah.Base.{
  ℕ, [], ◌∷◌, ◌++◌, ◌≡◌, ◌≢◌, ◌≤◌, refl, Bool, true, arith, some, length, take, drop,
  take-append_length, drop-append_length, All-In, All-append, ◌==◌, nat_eq, ==_iff,
}
use howdah.Base.Bytes.{Bytes, bytes_eq, IsBytes}
use howdah.Clock.{Time}
use howdah.Crypto.{Crypto, IsAead}
use howdah.Encoding.Base64.{raw_url_encode, raw_url_decode}
use howdah.Encoding.Base64.RoundTrip.{raw_url_decode-encode}
use howdah.Errors.{Error, ok, err, >>=-eq-ok, is, wrong_session_kind, wrap, lit, sentinel}
use howdah.Keyring.{CookieKeyring, KeyEntry, sealing_key}
use howdah.Keyring.Acceptance.{IsKeyring}
use howdah.Keyring.Selection.{sealing_key-IsSealingKey}
use howdah.Envelope.{
  SessionKind, open_kind_raw, cookie_envelope_aad, cookie_envelope_v1, seal_kind_raw, seal_kind,
  open_kind,
}
use howdah.Envelope.RoundTrip.{IsOurs, open_kind_raw-seal_kind_raw, sealed_by}
use howdah.Envelope.Sealing.{length-layout}

-- The additional data of an envelope with a key id of 8 bytes determines its version, its kind, its
-- key id and its domain.
pub cookie_envelope_aad_injective :
    (version version' : ℕ) (kind kind' : SessionKind) (kid kid' domain domain' : Bytes)
    → length kid ≡ 8
    → length kid' ≡ 8
    → cookie_envelope_aad version kind kid domain ≡ cookie_envelope_aad version' kind' kid' domain'
    → (version ≡ version') × (kind ≡ kind') × (kid ≡ kid') × (domain ≡ domain')
unfolding cookie_envelope_aad
cookie_envelope_aad_injective version version' kind kind' kid kid' domain domain' h h' e =
    let tails : kid ++ domain ≡ kid' ++ domain' = cc in
    let first : take 8 (kid ++ domain) ≡ kid = rw (← h) (take-append_length kid domain) in
    let first' : take 8 (kid' ++ domain') ≡ kid' = rw (← h') (take-append_length kid' domain') in
    let last : drop 8 (kid ++ domain) ≡ domain = rw (← h) (drop-append_length kid domain) in
    let last' : drop 8 (kid' ++ domain') ≡ domain' = rw (← h') (drop-append_length kid' domain') in
    (cc, cc, cc, cc)

module _ (c : Crypto) (v : IsAead c) (k : CookieKeyring) (w : IsKeyring k) (now : Time)
    (kind : SessionKind) (domain plaintext nonce : Bytes) (ours : IsOurs kind)
    (full : length nonce ≡ 12) where
  envelope-IsBytes :
      (sealed kid : Bytes)
      → IsBytes plaintext
      → IsBytes nonce
      → seal_kind_raw c (some k) now kind domain plaintext (ok nonce) ≡ ok (sealed, kid)
      → IsBytes sealed
  envelope-IsBytes sealed kid hp hn h =
      let (key, has, made, _) =
        sealed_by c v k w kind domain plaintext nonce ours full now sealed kid h in
      let down = w.well_formed.descending in
      let listed = (sealing_key-IsSealingKey k now key down has).listed in
      let (_, hk) = All-In _ key k.by_use_after w.kids listed in
      rw made (
        omega arith,
        (
          ground arith,
          All-append _ key.kid _ hk
              (All-append _ nonce _ hn (v.aead_seal-IsBytes key.aead nonce plaintext _ hp)),
        ),
      )

  -- The envelope under a cookie value, and what it decodes to.
  record Wrapped (value : Bytes) : Type 0 where
    sealed : Bytes
    kid : Bytes
    made : seal_kind_raw c (some k) now kind domain plaintext (ok nonce) ≡ ok (sealed, kid)
    decodes : raw_url_decode value ≡ some sealed

  envelope_under :
      (value : Bytes)
      → IsBytes plaintext
      → IsBytes nonce
      → seal_kind c (some k) now kind domain plaintext (ok nonce) ≡ ok value
      → Wrapped value
  unfolding seal_kind
  envelope_under value hp hn h =
      let (r, made, e) =
        >>=-eq-ok (seal_kind_raw c (some k) now kind domain plaintext (ok nonce))
          (λ sealed. ok (raw_url_encode sealed.0)) h in
      record {
        sealed = r.0;
        kid = r.1;
        made = made;
        decodes =
            ground (arith, e, raw_url_decode-encode r.0 (envelope-IsBytes r.0 r.1 hp hn made));
      }

-- Over an AEAD, a cookie value of one of the two kinds that a keyring that was built sealed with a
-- 12-byte nonce, all of it bytes, opens in it at every later time to what was sealed, and is
-- current at the time it was sealed.
pub open_kind-seal_kind :
    (c : Crypto) (k : CookieKeyring) (now later : Time) (kind : SessionKind)
    (domain plaintext nonce value : Bytes)
    → IsAead c
    → IsKeyring k
    → IsOurs kind
    → length nonce ≡ 12
    → IsBytes nonce
    → IsBytes plaintext
    → now ≤ later
    → seal_kind c (some k) now kind domain plaintext (ok nonce) ≡ ok value
    → ((current : Bool) × (open_kind c (some k) later kind domain value ≡ ok (plaintext, current)))
      × (open_kind c (some k) now kind domain value ≡ ok (plaintext, true))
unfolding open_kind
open_kind-seal_kind c k now later kind domain plaintext nonce value v w ours full hn hp le h =
    let r = envelope_under c v k w now kind domain plaintext nonce ours full value hp hn h in
    let (sealing, _, opened) =
      open_kind_raw-seal_kind_raw c k now later kind domain plaintext nonce r.sealed r.kid v w ours
        full le r.made in
    let (first, has, at_once) =
      open_kind_raw-seal_kind_raw c k now now kind domain plaintext nonce r.sealed r.kid v w ours
        full (omega arith) r.made in
    let (key, has', _, same) =
      sealed_by c v k w kind domain plaintext nonce ours full now r.sealed r.kid r.made in
    (
      (r.kid == sealing.kid, ground (arith, r.decodes, opened)),
      ground (arith, r.decodes, at_once, has, has', same, ==_iff r.kid first.kid),
    )

-- Over an AEAD, an envelope of one of the two kinds that a keyring that was built sealed with a
-- 12-byte nonce is refused by a reader of the other as the wrong kind, whatever keyring
-- with a sealing key and whatever domain it reads with.
pub open_kind_raw-other_kind :
    (c : Crypto) (k reader : CookieKeyring) (now later : Time) (kind kind' : SessionKind)
    (domain domain' plaintext nonce sealed kid : Bytes) (sealing : KeyEntry)
    → IsAead c
    → IsKeyring k
    → IsOurs kind
    → kind ≢ kind'
    → length nonce ≡ 12
    → seal_kind_raw c (some k) now kind domain plaintext (ok nonce) ≡ ok (sealed, kid)
    → sealing_key (some reader) later ≡ some sealing
    → (e : Error) × (open_kind_raw c (some reader) later kind' domain' sealed ≡ err e)
      × (is e wrong_session_kind ≡ true)
unfolding open_kind_raw is
open_kind_raw-other_kind c k reader now later kind kind' domain domain' plaintext nonce sealed kid
      sealing v w ours ne full h has =
    let (key, has', made, _) =
      sealed_by c v k w kind domain plaintext nonce ours full now sealed kid h in
    let listed = (sealing_key-IsSealingKey k now key w.well_formed.descending has').listed in
    let (kid_full, _) = All-In _ key k.by_use_after w.kids listed in
    let aad = cookie_envelope_aad cookie_envelope_v1 kind key.kid domain in
    let text = c.aead_seal key.aead nonce plaintext aad in
    (
      wrap (lit "expected another kind" ∷ []) (sentinel wrong_session_kind),
      ground (
        arith,
        made,
        has,
        length-layout 1 kind key.kid nonce text kid_full full,
        v.length-aead_seal key.aead nonce plaintext aad,
      ),
      refl,
    )
