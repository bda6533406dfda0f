-- ===== src/Tests/Envelopes.antt =====
-- Envelopes of the tests' keyring: what opens, and the reasons for which others do not.
use howdah.Base.{[], ◌∷◌, ◌≡◌, ◌↔◌, refl, arith, Bool, some, inl, true}
use howdah.Base.Bytes.{bytes_eq, Bytes, bytes}
use howdah.Base.Dict.{lookup}
use howdah.Encoding.Base64.{raw_url_encode}
use howdah.Encoding.Hex.{hex}
use howdah.Errors.{
  Error, ok, err, is, Sentinel, wrong_session_kind, wrap, sentinel, authentication, lit, raw,
}
use howdah.Keyring.{KeyEntry, sealing_key, eligible}
use howdah.Envelope.{
  Opened, seal_with, seal_kind_raw, seal_kind, open_kind_raw, open_kind, cookie_envelope_aad,
  session_kind_payload, session_kind_handle,
}
use howdah.Envelope.Domain.{session, cookie_domain, valid_cookie_name}
use howdah.Envelope.Opening.{Refusal, open_kind_raw-Refusal}
use howdah.Envelope.RoundTrip.{IsSealed, open_kind_raw-IsSealed}
use howdah.Envelope.Cookie.{open_kind-seal_kind, open_kind_raw-other_kind}
use howdah.Sealer.{SessionSealer, new_session_sealer, payload_domain, seal_payload, open_payload}
use howdah.Sealer.Rows.{payload_domain_injective, open_payload-seal_payload}
use howdah.Tests.Toy.{
  repeat, toy, toy_keyring, old_entry, new_entry, toy-IsAead, toy_keyring-IsKeyring, toy_seal,
  toy_open, tag, sum,
}

abbrev domain : Bytes
domain = bytes "cookie:sid"

abbrev text : Bytes
text = bytes "hello"

abbrev nonce : Bytes
nonce = repeat 12 9

abbrev envelope : Bytes
envelope = seal_with toy old_entry session_kind_payload domain text nonce

abbrev opened : Opened
opened = record { plaintext = text; kid = repeat 8 140; current = true }

old_seals : sealing_key (some toy_keyring) 150 ≡ some old_entry
unfolding sealing_key eligible
old_seals = refl

new_seals : sealing_key (some toy_keyring) 250 ≡ some new_entry
unfolding sealing_key eligible
new_seals = refl

sealed_raw :
    seal_kind_raw toy (some toy_keyring) 150 session_kind_payload domain text (ok nonce)
    ≡ ok (envelope, repeat 8 140)
unfolding seal_kind_raw sealing_key eligible
sealed_raw = refl

sealed_value :
    seal_kind toy (some toy_keyring) 150 session_kind_payload domain text (ok nonce)
    ≡ ok (raw_url_encode envelope)
unfolding seal_kind
sealed_value = rw sealed_raw refl

opens : open_kind_raw toy (some toy_keyring) 150 session_kind_payload domain envelope ≡ ok opened
unfolding open_kind_raw sealing_key eligible toy toy_seal toy_open tag sum lookup
    cookie_envelope_aad
opens = refl

open_kind_raw-IsSealed_example :
    IsSealed toy toy_keyring session_kind_payload domain envelope opened
    × ((sealing : KeyEntry) × (sealing_key (some toy_keyring) 150 ≡ some sealing)
        × ((opened.current ≡ true) ↔ (opened.kid ≡ sealing.kid)))
open_kind_raw-IsSealed_example =
    open_kind_raw-IsSealed toy toy_keyring 150 session_kind_payload domain envelope opened
      toy-IsAead toy_keyring-IsKeyring.well_formed opens

open_kind-seal_kind_example :
    ((current : Bool) × (open_kind toy
          (some toy_keyring)
          250
          session_kind_payload
          domain
          (raw_url_encode envelope)
        ≡ ok (text, current)))
    × (open_kind toy (some toy_keyring) 150 session_kind_payload domain (raw_url_encode envelope)
        ≡ ok (text, true))
open_kind-seal_kind_example =
    open_kind-seal_kind toy toy_keyring 150 250 session_kind_payload domain text nonce
      (raw_url_encode envelope) toy-IsAead toy_keyring-IsKeyring (inl refl) refl (ground arith)
      (ground arith) (omega arith) sealed_value

open_kind_raw-other_kind_example :
    (e : Error) × (open_kind_raw toy
        (some toy_keyring)
        250
        session_kind_handle
        (bytes "other")
        envelope
      ≡ err e)
    × (is e wrong_session_kind ≡ true)
open_kind_raw-other_kind_example =
    open_kind_raw-other_kind toy toy_keyring toy_keyring 150 250 session_kind_payload
      session_kind_handle domain (bytes "other") text nonce envelope (repeat 8 140) new_entry
      toy-IsAead toy_keyring-IsKeyring (inl refl) (λ e. omega arith) refl sealed_raw new_seals

-- The envelope under another domain does not authenticate.
abbrev refused : Error
refused = wrap (lit "key " ∷ raw (hex (repeat 8 140)) ∷ []) (sentinel authentication)

refuses :
    open_kind_raw toy (some toy_keyring) 250 session_kind_payload (bytes "cookie:b") envelope
    ≡ err refused
unfolding open_kind_raw sealing_key eligible toy toy_seal toy_open tag sum lookup
    cookie_envelope_aad hex
refuses = refl

open_kind_raw-Refusal_example :
    (s : Sentinel) × Refusal toy toy_keyring 250 session_kind_payload (bytes "cookie:b") envelope s
    × (is refused s ≡ true)
open_kind_raw-Refusal_example =
    open_kind_raw-Refusal toy toy_keyring 250 new_entry session_kind_payload (bytes "cookie:b")
      envelope refused new_seals refuses

cookie_domain_sid : cookie_domain session (bytes "sid") ≡ ok domain
unfolding cookie_domain valid_cookie_name
cookie_domain_sid = refl

abbrev sealer : SessionSealer
sealer = record { keyring = toy_keyring; cookie_domain = domain; store_domain = bytes "store:sid" }

sealer_built : new_session_sealer (some toy_keyring) (bytes "sid") ≡ ok sealer
unfolding new_session_sealer cookie_domain
sealer_built = refl

payload_domain_injective_example : (bytes "sid" ≡ bytes "sid") × (repeat 3 7 ≡ repeat 3 7)
payload_domain_injective_example =
    payload_domain_injective toy_keyring toy_keyring (bytes "sid") (bytes "sid") (repeat 3 7)
      (repeat 3 7) sealer sealer sealer_built sealer_built (ground arith) (ground arith) refl

abbrev row_envelope : Bytes
row_envelope =
    seal_with toy old_entry session_kind_payload (payload_domain sealer (repeat 3 7)) text nonce

row_sealed :
    seal_payload toy sealer 150 (repeat 3 7) text (ok nonce) ≡ ok (row_envelope, repeat 8 140)
unfolding seal_payload seal_kind_raw sealing_key eligible
row_sealed = refl

open_payload-seal_payload_example :
    (o : Opened) × (open_payload toy sealer 250 (repeat 3 7) row_envelope ≡ ok o)
    × (o.plaintext ≡ text)
    × (o.kid ≡ repeat 8 140)
open_payload-seal_payload_example =
    open_payload-seal_payload toy sealer 150 250 (repeat 3 7) text nonce row_envelope (repeat 8 140)
      toy-IsAead toy_keyring-IsKeyring refl (omega arith) row_sealed
