-- ===== src/Sealer/Rows.antt =====
-- The domains of the payloads of rows, and the opening of sealed payloads.
use howdah.Base.{
  ℕ, [], ◌∷◌, ◌++◌, ◌≡◌, ◌≢◌, ◌≤◌, ◌<◌, ◌/◌, ◌%◌, refl, true, false, arith, some, ap, inl, inr,
  length,
}
use howdah.Base.Bytes.{Bytes, bytes, IsBytes, has_byte}
use howdah.Clock.{Time}
use howdah.Crypto.{Crypto, IsAead}
use howdah.Encoding.Hex.{hex, hex_digit}
use howdah.Envelope.{session_kind_payload, Opened}
use howdah.Envelope.Domain.{Purpose, session, auth_redirect, store, purpose_text, cookie_domain}
use howdah.Envelope.Domain.Separation.{cookie_domain-ok}
use howdah.Envelope.RoundTrip.{open_kind_raw-seal_kind_raw}
use howdah.Errors.{ok, Result-cases, wrapped, wrapped-eq-ok}
use howdah.Keyring.{CookieKeyring}
use howdah.Keyring.Acceptance.{IsKeyring}
use howdah.Sealer.{SessionSealer, new_session_sealer, payload_domain, seal_payload, open_payload}

hex_digit_injective : (d e : ℕ) → d < 16 → e < 16 → hex_digit d ≡ hex_digit e → d ≡ e
unfolding hex_digit
hex_digit_injective d e p q h = ground arith

hex_injective : (s t : Bytes) → IsBytes s → IsBytes t → hex s ≡ hex t → s ≡ t
unfolding hex
hex_injective [] [] hs ht e = refl
hex_injective [] (d ∷ t) hs ht e = cc
hex_injective (c ∷ s) [] hs ht e = cc
hex_injective (c ∷ s) (d ∷ t) (p, hs) (q, ht) e =
    let high : c / 16 ≡ d / 16 =
      hex_digit_injective (c / 16) (d / 16) (omega arith) (omega arith) (cc) in
    let low : c % 16 ≡ d % 16 =
      hex_digit_injective (c % 16) (d % 16) (omega arith) (omega arith) (cc) in
    let same : c ≡ d = omega arith in let rest : s ≡ t = hex_injective s t hs ht (cc) in cc

-- The text up to the first separator is read off in one way.
split_at :
    (sep : ℕ) (a b s t : Bytes)
    → has_byte a sep ≡ false
    → has_byte b sep ≡ false
    → a ++ sep ∷ s ≡ b ++ sep ∷ t
    → (a ≡ b) × (s ≡ t)
unfolding has_byte
split_at sep [] [] s t ha hb e = ground arith
split_at sep [] (d ∷ b) s t ha hb e = absurd (ground arith)
split_at sep (c ∷ a) [] s t ha hb e = absurd (ground arith)
split_at sep (c ∷ a) (d ∷ b) s t ha hb e = ground (arith, split_at sep a b s t)

has_byte-append : (a b : Bytes) (sep : ℕ) → has_byte (a ++ sep ∷ b) sep ≡ true
unfolding has_byte
has_byte-append [] b sep = ground arith
has_byte-append (c ∷ a) b sep = ground (arith, has_byte-append a b sep)

new_session_sealer-ok :
    (k : CookieKeyring) (name : Bytes) (s : SessionSealer)
    → new_session_sealer (some k) name ≡ ok s
    → (has_byte name b':' ≡ false) × (s.store_domain ≡ bytes "store:" ++ name) × (s.keyring ≡ k)
unfolding new_session_sealer
new_session_sealer-ok k name s h = elim (Result-cases (cookie_domain store name)) [
  | inl (d, e) ↦
      let (no_colon, text) = cookie_domain-ok store name d e in
      elim (Result-cases (cookie_domain session name)) [
        | inl (d', e') ↦ ground (arith, no_colon, text)
        | inr (x, e') ↦ absurd (ground arith)
      ]
  | inr (x, e) ↦ elim (Result-cases (cookie_domain session name)) [
    | inl (d', e') ↦ absurd (ground arith)
    | inr (y, e') ↦ absurd (ground arith)
  ]
]

-- Two rows have one payload domain only when they are the same row of applications with the same
-- session cookie name.
pub payload_domain_injective :
    (k k' : CookieKeyring) (name name' row row' : Bytes) (s s' : SessionSealer)
    → new_session_sealer (some k) name ≡ ok s
    → new_session_sealer (some k') name' ≡ ok s'
    → IsBytes row
    → IsBytes row'
    → payload_domain s row ≡ payload_domain s' row'
    → (name ≡ name') × (row ≡ row')
unfolding payload_domain
payload_domain_injective k k' name name' row row' s s' h h' b b' e =
    let (bare, text, _) = new_session_sealer-ok k name s h in
    let (bare', text', _) = new_session_sealer-ok k' name' s' h' in
    let tails : name ++ b':' ∷ hex row ≡ name' ++ b':' ∷ hex row' = ground (arith, text, text') in
    let (names, rows) = split_at b':' name name' (hex row) (hex row') bare bare' tails in
    (names, hex_injective row row' b b' rows)

not_cookie :
    (p : Purpose) (name cookie_name rest : Bytes)
    → has_byte cookie_name b':' ≡ false
    → bytes "store:" ++ (name ++ b':' ∷ rest) ≢ purpose_text p ++ cookie_name
unfolding has_byte
not_cookie session name cookie_name rest bare e = ground arith
not_cookie auth_redirect name cookie_name rest bare e = ground arith
not_cookie store name cookie_name rest bare e =
    let same : name ++ b':' ∷ rest ≡ cookie_name = ground arith in
    ground (arith, has_byte-append name rest b':', ap (λ t. has_byte t b':') same)

-- A payload's domain is not that of any cookie, so a payload taken from a row does not open as one.
pub payload_domain-ne-cookie_domain :
    (k : CookieKeyring) (name row cookie_name d : Bytes) (s : SessionSealer) (p : Purpose)
    → new_session_sealer (some k) name ≡ ok s
    → cookie_domain p cookie_name ≡ ok d
    → payload_domain s row ≢ d
unfolding payload_domain has_byte
payload_domain-ne-cookie_domain k name row cookie_name d s p h h' e =
    let (_, text, _) = new_session_sealer-ok k name s h in
    let (bare, same) = cookie_domain-ok p cookie_name d h' in
    not_cookie p name cookie_name (hex row) bare (ground (arith, text, same))

-- Over an AEAD and a keyring that was built, a payload that was sealed with a 12-byte nonce for a
-- row opens for that row, at that time and every later one, to what was sealed, with the id of the key
-- it was sealed under.
pub open_payload-seal_payload :
    (c : Crypto) (s : SessionSealer) (now later : Time) (row payload nonce sealed kid : Bytes)
    → IsAead c
    → IsKeyring s.keyring
    → length nonce ≡ 12
    → now ≤ later
    → seal_payload c s now row payload (ok nonce) ≡ ok (sealed, kid)
    → (o : Opened) × (open_payload c s later row sealed ≡ ok o)
      × (o.plaintext ≡ payload)
      × (o.kid ≡ kid)
unfolding seal_payload open_payload
open_payload-seal_payload c s now later row payload nonce sealed kid v w full le h =
    let (sealing, _, opened) =
      open_kind_raw-seal_kind_raw c s.keyring now later session_kind_payload (payload_domain s row)
        payload nonce sealed kid v w (inl refl) full le (wrapped-eq-ok _ _ h) in
    (_, ap (wrapped _) opened, refl, refl)
