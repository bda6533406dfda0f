-- ===== src/Tests/CookieSessions.antt =====
-- A session in a cookie from its login through a refresh, over a codec for the tests' payloads.
use howdah.Base.{
  ℕ, [], ◌∷◌, ◌≡◌, ◌≤◌, ◌<◌, ◌&&◌, refl, arith, Bool, Option, none, some, true, false, ltb, ◌==◌,
  ==_iff, nat_eq, if◌then◌else◌, list_beq, subst, sym,
}
use howdah.Base.Bytes.{bytes_eq, Bytes, bytes, IsBytes}
use howdah.Base.Int.{ℤ, pos, int_eq}
use howdah.Clock.{Time, time_sub}
use howdah.Encoding.Base64.{
  raw_url_encode, raw_url_decode, char_of, groups_raw, skip_breaks, encode_raw, digit_of,
}
use howdah.Errors.{Error, Result, ok, err, is, no_session, sentinel, not_sealed, message, lit}
use howdah.Keyring.{sealing_key, eligible}
use howdah.Base.Dict.{lookup}
use howdah.Envelope.{
  open_value, open_kind, open_kind_raw, cookie_envelope_aad, seal_with, seal, seal_kind,
  seal_kind_raw, session_kind_payload,
}
use howdah.Session.{OauthToken, NewSession, StoredToken, without_extra}
use howdah.CookieStore.{
  SessionPayload, Codec, IsCodec, stripped, session_payload_v1, CookieTokenStore, create, get,
  refresh, seal_session, no_session_with,
}
use howdah.CookieStore.Expiry.{IsNonce, Lineage, login, refreshed, get-Lineage}
use howdah.Tests.Toy.{
  repeat, toy, toy_keyring, old_entry, toy-IsAead, toy_keyring-IsKeyring, toy_seal, toy_open, tag,
  sum,
}

abbrev token_of : ℕ → OauthToken
token_of n = record {
  access_token = n ∷ [];
  token_type = [];
  refresh_token = [];
  expiry = 0;
  expires_in = pos 0;
  id_token = none;
}

abbrev payload_of : ℕ → ℕ → ℕ → SessionPayload
payload_of at n expiry = record {
  version = session_payload_v1;
  issued_at = at;
  token = some (record (token_of n) { expiry = expiry });
  subject = bytes "user";
}

abbrev refused_payload : Result Bytes
refused_payload = err (message (lit "not a payload of the tests" ∷ []))

abbrev marshal_token : SessionPayload → Option OauthToken → Result Bytes
marshal_token p none = refused_payload
marshal_token p (some t) = elim t.access_token [
  | [] ↦ refused_payload
  | n ∷ [] ↦
      if p.version == session_payload_v1
        && p.subject == bytes "user"
        && ltb p.issued_at 256
        && ltb n 256
        && t.token_type == []
        && t.refresh_token == []
        && ltb t.expiry 256
        && t.expires_in == pos 0
      then ok (p.issued_at ∷ n ∷ t.expiry ∷ [])
      else refused_payload
  | n ∷ m ∷ rest ↦ refused_payload
]

abbrev unmarshal_text : Bytes → Result SessionPayload
unmarshal_text [] = err (message (lit "empty" ∷ []))
unmarshal_text (at ∷ []) = err (message (lit "short" ∷ []))
unmarshal_text (at ∷ n ∷ []) = err (message (lit "short" ∷ []))
unmarshal_text (at ∷ n ∷ expiry ∷ rest) = ok (payload_of at n expiry)

abbrev pub toy_codec : Codec
toy_codec = record { marshal = λ p. marshal_token p p.token; unmarshal = unmarshal_text }

module _ (version : ℤ) (at : Time) (subject kind again : Bytes) (expiry : Time) (left : ℤ)
    (id : Option Bytes) where
  abbrev written : Bytes → OauthToken
  written access = record {
    access_token = access;
    token_type = kind;
    refresh_token = again;
    expiry = expiry;
    expires_in = left;
    id_token = id;
  }

  abbrev around : Bytes → SessionPayload
  around access = record {
    version = version;
    issued_at = at;
    token = some (written access);
    subject = subject;
  }

  unmarshal-marshal_written :
      (access text : Bytes)
      → marshal_token (around access) (some (written access)) ≡ ok text
      → (unmarshal_text text ≡ ok (stripped (around access))) × IsBytes text
  unmarshal-marshal_written [] text h = cc
  unmarshal-marshal_written (n ∷ m ∷ rest) text h = cc
  unmarshal-marshal_written (n ∷ []) text h = ground (
    arith,
    ==_iff version session_payload_v1,
    ==_iff subject (bytes "user"),
    ==_iff kind [],
    ==_iff again [],
    ==_iff left (pos 0),
  )

unmarshal-marshal_token :
    (p : SessionPayload) (o : Option OauthToken) (text : Bytes)
    → p.token ≡ o
    → marshal_token p o ≡ ok text
    → (unmarshal_text text ≡ ok (stripped p)) × IsBytes text
unmarshal-marshal_token p none text has h = cc
unmarshal-marshal_token p (some t) text has h =
    subst (λ o. (unmarshal_text text ≡ ok (stripped (record p { token = o }))) × IsBytes text)
      (sym has)
      (unmarshal-marshal_written p.version p.issued_at p.subject t.token_type t.refresh_token
        t.expiry t.expires_in t.id_token t.access_token text h)

pub toy_codec-IsCodec : IsCodec toy_codec
toy_codec-IsCodec = record {
  unmarshal-marshal = λ p text h. (unmarshal-marshal_token p p.token text refl h).0;
  marshal-IsBytes = λ p text h. (unmarshal-marshal_token p p.token text refl h).1;
}

abbrev pub nonce : Bytes
nonce = repeat 12 9

pub nonce-IsNonce : IsNonce nonce
nonce-IsNonce = record { full = refl; nonce_bytes = ground arith }

abbrev pub toy_store : CookieTokenStore
toy_store = record {
  keyring = toy_keyring;
  domain = bytes "cookie:sid";
  max_session_age = pos 1000;
}

abbrev envelope_of : ℕ → Bytes
envelope_of n =
    seal_with toy old_entry session_kind_payload (bytes "cookie:sid") (150 ∷ n ∷ 0 ∷ []) nonce

abbrev session_of : ℕ → Option Bytes → StoredToken
session_of n id = record {
  handle = raw_url_encode (envelope_of n);
  subject = bytes "user";
  token = some (record (token_of n) { id_token = id });
  id_token = [];
  issued_at = 150;
  expires_at = 1150;
  stale = false;
}

abbrev new_session : NewSession
new_session = record {
  subject = bytes "user";
  token = some (record (token_of 1) { id_token = some (bytes "id") });
  id_token = bytes "id";
}

created :
    create toy toy_codec toy_store 150 new_session (ok nonce)
    ≡ ok (session_of 1 (some (bytes "id")))
unfolding create seal_session seal seal_kind seal_kind_raw sealing_key eligible list_beq
created = refl

got : get toy toy_codec toy_store 180 (raw_url_encode (envelope_of 1)) ≡ ok (session_of 1 none)
unfolding get open_value open_kind open_kind_raw sealing_key eligible lookup toy toy_seal toy_open
    tag sum list_beq cookie_envelope_aad raw_url_decode raw_url_encode groups_raw skip_breaks
    encode_raw char_of digit_of time_sub
got = refl

abbrev exchange : Option OauthToken → Result (Option OauthToken)
exchange tok = ok (some (token_of 2))

was_refreshed :
    refresh toy toy_codec toy_store 190 (session_of 1 none) exchange (ok nonce)
    ≡ ok (session_of 2 none)
unfolding refresh seal_session seal seal_kind seal_kind_raw sealing_key eligible list_beq
was_refreshed = refl

lineage : Lineage toy toy_codec toy_store 150 190 (session_of 2 none)
lineage =
    refreshed 150 180 190 (session_of 1 (some (bytes "id"))) (session_of 1 none) (session_of 2 none)
      exchange nonce
      (login new_session nonce (session_of 1 (some (bytes "id"))) nonce-IsNonce created)
      (omega arith) (omega arith) got nonce-IsNonce was_refreshed

get-Lineage_example :
    (1150 ≤ 1200
      → (e : Error) × (get toy toy_codec toy_store 1200 (raw_url_encode (envelope_of 2)) ≡ err e)
        × (is e no_session ≡ true))
    × (1200 < 1150
        → (stale : Bool) × (tok : OauthToken) × (some (token_of 2) ≡ some tok)
          × (get toy toy_codec toy_store 1200 (raw_url_encode (envelope_of 2))
              ≡ ok (record {
                handle = raw_url_encode (envelope_of 2);
                subject = bytes "user";
                token = some (without_extra tok);
                id_token = [];
                issued_at = 150;
                expires_at = 1150;
                stale = stale;
              })))
get-Lineage_example =
    get-Lineage toy toy_codec toy_store 1000 150 190 1200 (session_of 2 none) toy-IsAead
      toy_codec-IsCodec toy_keyring-IsKeyring refl (omega arith) (omega arith) lineage (omega arith)

abbrev not_a_value : Error
not_a_value =
    no_session_with toy toy_codec toy_store 180 "open session cookie" (sentinel not_sealed)

garbage : get toy toy_codec toy_store 180 (bytes "#") ≡ err not_a_value
unfolding get open_value open_kind raw_url_decode groups_raw skip_breaks digit_of
garbage = refl
