-- ===== src/CookieStore.antt =====
-- token_store_cookie.go: the store that keeps the session in the cookie, with the payload of
-- application_auth.go. `random` is what rand.Read gives for the nonce, `now` the time of the call.
pub mod Reading
pub mod Expiry
use howdah.Base.{
  ℕ, ◌≡◌, String, List, [], ◌∷◌, Bool, true, false, not, Option, none, some, ◌==◌, nat_eq,
  if◌then◌else◌,
}
use howdah.Base.Bytes.{Bytes, IsBytes}
use howdah.Base.Int.{ℤ, pos, int_leb, int_eq}
use howdah.Clock.{Time, Duration, zero_time, add_duration, time_sub, is_positive}
use howdah.Crypto.{Crypto}
use howdah.Envelope.{seal, open_value}
use howdah.Envelope.Domain.{session, cookie_domain}
use howdah.Errors.{
  lit, message, wrap, wrap_both, wrapped, sentinel, no_session, Error, Result, ok, err, ◌>>=◌,
}
use howdah.Keyring.{CookieKeyring}
use howdah.Session.{OauthToken, without_extra, NewSession, StoredToken}

abbrev pub session_payload_v1 : ℤ
session_payload_v1 = pos 1

pub record SessionPayload : Type 0 where
  pub version : ℤ
  pub issued_at : Time
  pub token : Option OauthToken
  pub subject : Bytes

-- encoding/json on the payload.
pub record Codec : Type 0 where
  pub marshal : SessionPayload → Result Bytes
  pub unmarshal : Bytes → Result SessionPayload

abbrev pub stripped : SessionPayload → SessionPayload
stripped p = record p { token = elim p.token [ none ↦ none | some tok ↦ some (without_extra tok) ] }

-- Decoding undoes encoding, but for the token's Extra map. (encoding/json replaces invalid UTF-8: the
-- payloads are those whose strings are valid.)
pub record IsCodec (j : Codec) : Type 0 where
  pub unmarshal-marshal :
      (p : SessionPayload) (text : Bytes)
      → j.marshal p ≡ ok text
      → j.unmarshal text ≡ ok (stripped p)
  pub marshal-IsBytes : (p : SessionPayload) (text : Bytes) → j.marshal p ≡ ok text → IsBytes text

pub record CookieTokenStore : Type 0 where
  pub keyring : CookieKeyring
  pub domain : Bytes
  pub max_session_age : Duration

unfoldable pub new_cookie_token_store :
    Option CookieKeyring → Bytes → Duration → Result CookieTokenStore
unfolding cookie_domain
new_cookie_token_store none cookie_name age =
    err (message (lit "a cookie keyring is required" ∷ []))
new_cookie_token_store (some keyring) cookie_name age = elim (is_positive age) [
  | false ↦ err (message (lit "the maximum session age must be positive" ∷ []))
  | true ↦ do
    domain ← wrapped (lit "session cookie" ∷ []) (cookie_domain session cookie_name)
    ok (record { keyring = keyring; domain = domain; max_session_age = age })
]

abbrev pub needs_token {ℓ} : {A : Type ℓ} → Result A
needs_token = err (message (lit "a session needs a token" ∷ []))

-- A session with these fields, and the rest at their zero values.
abbrev pub session_from : Bytes → OauthToken → Time → StoredToken
session_from subject tok issued_at = record {
  handle = [];
  subject = subject;
  token = some tok;
  id_token = [];
  issued_at = issued_at;
  expires_at = zero_time;
  stale = false;
}

module _ (c : Crypto) (j : Codec) (s : CookieTokenStore) (now : Time) where
  -- `seal` of a session that is there; a nil one and one without a token are refused alike.
  abbrev pub seal_session_with : StoredToken → Result Bytes → Option OauthToken → Result StoredToken
  seal_session_with t random none = needs_token
  seal_session_with t random (some tok) = do
    data_bytes ← wrapped (lit "marshal session payload" ∷ []) (
        j.marshal (record {
          version = session_payload_v1;
          issued_at = t.issued_at;
          token = some tok;
          subject = t.subject;
        }))
    value ←
        wrapped (lit "seal session payload" ∷ [])
          (seal c (some s.keyring) now s.domain data_bytes random)
    ok (record {
      handle = value;
      subject = t.subject;
      token = some tok;
      id_token = [];
      issued_at = t.issued_at;
      expires_at = add_duration t.issued_at s.max_session_age;
      stale = false;
    })

  unfoldable pub seal_session : Option StoredToken → Result Bytes → Result StoredToken
  seal_session none random = needs_token
  seal_session (some t) random = seal_session_with t random t.token

  abbrev pub create_with : NewSession → Result Bytes → Option OauthToken → Result StoredToken
  create_with new random none = needs_token
  create_with new random (some tok) = seal_session (some (session_from new.subject tok now)) random

  unfoldable pub create : NewSession → Result Bytes → Result StoredToken
  unfolding seal_session
  create new random = create_with new random new.token

  abbrev pub no_session_with : String → Error → Error
  no_session_with text e = wrap_both (sentinel no_session) (lit text ∷ []) e

  abbrev pub refused : String → Result StoredToken
  refused text = err (wrap (lit text ∷ []) (sentinel no_session))

  abbrev pub resolved : Bytes → Bool → SessionPayload → Option OauthToken → Result StoredToken
  resolved handle current payload none = refused "the session payload carries no token"
  resolved handle current payload (some tok) =
      if int_leb s.max_session_age (time_sub now payload.issued_at)
      then refused "the session is past the maximum age"
      else ok (record {
        handle = handle;
        subject = payload.subject;
        token = some tok;
        id_token = [];
        issued_at = payload.issued_at;
        expires_at = add_duration payload.issued_at s.max_session_age;
        stale = not current;
      })

  abbrev pub versioned : Bytes → Bool → Result SessionPayload → Result StoredToken
  versioned handle current (err e) = err (no_session_with "unmarshal session payload" e)
  versioned handle current (ok payload) =
      if payload.version == session_payload_v1
      then resolved handle current payload payload.token
      else refused "unsupported session payload version"

  abbrev pub opened : Bytes → Result (Bytes × Bool) → Result StoredToken
  opened handle (err e) = err (no_session_with "open session cookie" e)
  opened handle (ok (plaintext, current)) = versioned handle current (j.unmarshal plaintext)

  unfoldable pub get : Bytes → Result StoredToken
  unfolding open_value
  get handle = opened handle (open_value c (some s.keyring) now s.domain handle)

  unfoldable pub update : Bytes → Option OauthToken → Result Bytes → Result StoredToken
  unfolding get seal_session
  update handle none random = needs_token
  update handle (some tok) random = do
    found ← get handle
    seal_session (some (record found { token = some tok })) random

  unfoldable pub reseal : Option StoredToken → Result Bytes → Result StoredToken
  unfolding seal_session
  reseal t random = seal_session t random

  -- The body of the flight that concurrent refreshes of one handle share. `exchange` is called with
  -- the session's token, and its result may be nil.
  abbrev pub exchanged : StoredToken → Result Bytes → Option OauthToken → Result StoredToken
  exchanged t random none = err (message (lit "the exchange returned no token" ∷ []))
  exchanged t random (some tok) =
      seal_session (some (session_from t.subject tok t.issued_at)) random

  unfoldable pub refresh :
      StoredToken
      → (Option OauthToken → Result (Option OauthToken))
      → Result Bytes
      → Result StoredToken
  unfolding seal_session
  refresh t exchange random =
      wrapped (lit "exchange refresh token" ∷ [])
        (exchange t.token >>= λ tok. exchanged t random tok)

-- `Delete` and `DeleteExpired` have nothing to do.
unfoldable pub delete : CookieTokenStore → Bytes → Result (Unit {0})
delete s handle = ok tt

unfoldable pub delete_expired : CookieTokenStore → ℕ → Result ℕ
delete_expired s batch = ok 0
