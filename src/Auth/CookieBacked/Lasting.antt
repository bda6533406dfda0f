-- ===== src/Auth/CookieBacked/Lasting.antt =====
-- How long the session of a login lasts in the cookie.
use howdah.Base.{
  ℕ, ◌+◌, ◌≡◌, ◌≤◌, ◌<◌, ◌^◌, [], ◌∷◌, Bool, true, Option, some, refl, arith, In, ==_iff, nat_eq,
}
use howdah.Base.Bytes.{Bytes, bytes, bytes_eq}
use howdah.Base.Dict.{lookup}
use howdah.Base.Int.{pos}
use howdah.Clock.{Time}
use howdah.Crypto.{Crypto, IsAead}
use howdah.CookieStore.{Codec, IsCodec, CookieTokenStore}
use howdah.CookieStore
use howdah.CookieStore.Expiry.{IsNonce, login, get-Lineage}
use howdah.Errors.{Error, Result, ok, err, is, no_session}
use howdah.Keyring.Acceptance.{IsKeyring}
use howdah.Session.{OauthToken, without_extra, NewSession, StoredToken}
use howdah.Auth.{Cookie, sent, OidcAuth, Request, read_token_cookie, resolve_handle}
use howdah.Auth.Cookies.{clears, read_token_cookie-clears}
use howdah.Auth.Contexts.{IdToken}
use howdah.Auth.Login.{query_get, assume_token_expiry, sign_in}
use howdah.Auth.CookieBacked.{cookie_backed}
use howdah.Auth.CookieBacked.Signing.{sign_in-Signed}

module _ (rendered : Cookie → Bytes) (a : OidcAuth) (get : Bytes → Result StoredToken) (now : Time)
    (value : Bytes) where
  read_single :
      read_token_cookie rendered get a now ((a.cookie_name, value) ∷ [])
      ≡ resolve_handle rendered get a now (get value)
  unfolding read_token_cookie lookup
  read_single = rw ((==_iff a.cookie_name a.cookie_name).1 refl) refl

  read_single-ok :
      (session : StoredToken) (tok : OauthToken)
      → get value ≡ ok session
      → session.token ≡ some tok
      → read_token_cookie rendered get a now ((a.cookie_name, value) ∷ []) ≡ ([], ok session)
  read_single-ok session tok got has = rw (read_single, got, has) refl

  read_single-clears :
      (e : Error)
      → get value ≡ err e
      → is e no_session ≡ true
      → clears a.cookie_name (read_token_cookie rendered get a now ((a.cookie_name, value) ∷ [])).0
        ≡ true
  unfolding lookup
  read_single-clears e failed gone =
      (read_token_cookie-clears rendered a now get ((a.cookie_name, value) ∷ []) e
          (rw (read_single, failed) refl)).1
        (rw ((==_iff a.cookie_name a.cookie_name).1 refl) (λ e. cc), rw gone refl)

-- The created session has the subject and the token that it was created with.
create-kept :
    (c : Crypto) (j : Codec) (s : CookieTokenStore) (now : Time) (new : NewSession)
    (tok : OauthToken) (random : Result Bytes) (t : StoredToken)
    → new.token ≡ some tok
    → CookieStore.create c j s now new random ≡ ok t
    → (t.subject ≡ new.subject) × (t.token ≡ some tok)
unfolding CookieStore.create
create-kept c j s now new tok random t has h = ground (arith, (rw has at h))

module _ (c : Crypto) (j : Codec) (s : CookieTokenStore) (age : ℕ) (start : Time) (nonce : Bytes)
    (v : IsAead c) (m : IsCodec j) (w : IsKeyring s.keyring) (fits : s.max_session_age ≡ pos age)
    (some_age : 0 < age) (short : age < 2 ^ 63) (n : IsNonce nonce) (new : NewSession)
    (tok : OauthToken) (has : new.token ≡ some tok) (session : StoredToken)
    (made : CookieStore.create c j s start new (ok nonce) ≡ ok session) (rendered : Cookie → Bytes)
    (a : OidcAuth) (later : Time) where
  created-read :
      start ≤ later
      → later < start + age
      → (stale : Bool) × (read_token_cookie rendered
            (CookieStore.get c j s later)
            a
            later
            ((a.cookie_name, session.handle) ∷ [])
          ≡ (
            [],
            ok (record {
              handle = session.handle;
              subject = new.subject;
              token = some (without_extra tok);
              id_token = [];
              issued_at = start;
              expires_at = start + age;
              stale = stale;
            }),
          ))
  created-read le lt =
      let (_, alive) =
        get-Lineage c j s age start start later session v m w fits some_age short
          (login new nonce session n made) le in
      let (stale, kept, token, got) = alive lt in
      let (subject, given) = create-kept c j s start new tok (ok nonce) session has made in
      let same : kept ≡ tok = ground (arith, token, given) in
      (
        stale,
        read_single-ok rendered a (CookieStore.get c j s later) later session.handle _
            (without_extra tok) (rw (← subject, ← same) got) refl,
      )

  created-clears :
      start + age ≤ later
      → clears a.cookie_name
          (read_token_cookie rendered
            (CookieStore.get c j s later)
            a
            later
            ((a.cookie_name, session.handle) ∷ [])).0
        ≡ true
  created-clears over =
      let (dead, _) =
        get-Lineage c j s age start start later session v m w fits some_age short
          (login new nonce session n made) (omega arith) in
      let (e, failed, gone) = dead over in
      read_single-clears rendered a (CookieStore.get c j s later) later session.handle e failed gone

-- A login over the store in the cookie lasts: where the callback's sign-in succeeds, the response has
-- a session cookie. Reading it gives the session of the subject that the provider vouched for, until
-- the maximum session age after the login, with the token that the login received, less its Extra map
-- and with the assumed expiry where it came with none, and whether or not that token has expired by
-- then; from then on the read refuses the cookie, and clears it. Over an AEAD, a codec that undoes its own encoding, a keyring that was built and a positive maximum age
-- that fits a duration.
pub sign_in-lasts :
    (rendered : Cookie → Bytes) (a : OidcAuth) (c : Crypto) (j : Codec) (s : CookieTokenStore)
    (age : ℕ) (start : Time) (nonce : Bytes) (exchange_code : Bytes → Result OauthToken)
    (verify : Bytes → Result IdToken) (on_login : Option (IdToken → Result (Unit {0})))
    (r : Request) (state login_nonce : Bytes) (u : Unit {0})
    → IsAead c
    → IsCodec j
    → IsKeyring s.keyring
    → s.max_session_age ≡ pos age
    → 0 < age
    → age < 2 ^ 63
    → IsNonce nonce
    → (sign_in rendered a
        (cookie_backed c j s start (ok nonce))
        start
        c
        exchange_code
        verify
        on_login
        r
        state
        login_nonce).1
      ≡ ok u
    → (k : Cookie) × (raw_token : Bytes) × (id : IdToken) × (tok : OauthToken) × In
        (sent k)
        (sign_in rendered a
          (cookie_backed c j s start (ok nonce))
          start
          c
          exchange_code
          verify
          on_login
          r
          state
          login_nonce).0
      × (k.name ≡ a.cookie_name)
      × (exchange_code (query_get r (bytes "code")) ≡ ok tok)
      × (tok.id_token ≡ some raw_token)
      × (verify raw_token ≡ ok id)
      × ((later : Time) (random : Result Bytes)
          → start ≤ later
          → later < start + age
          → (stale : Bool) × (read_token_cookie rendered
                (cookie_backed c j s later random).get
                a
                later
                ((k.name, k.value) ∷ [])
              ≡ (
                [],
                ok (record {
                  handle = k.value;
                  subject = id.subject;
                  token = some (without_extra (assume_token_expiry start tok).1);
                  id_token = [];
                  issued_at = start;
                  expires_at = start + age;
                  stale = stale;
                }),
              )))
      × ((later : Time) (random : Result Bytes)
          → start + age ≤ later
          → clears a.cookie_name
              (read_token_cookie rendered
                (cookie_backed c j s later random).get
                a
                later
                ((k.name, k.value) ∷ [])).0
            ≡ true)
unfolding cookie_backed
sign_in-lasts rendered a c j s age start nonce exchange_code verify on_login r state login_nonce u v
      m w fits some_age short n h =
    let signed =
      sign_in-Signed rendered a (cookie_backed c j s start (ok nonce)) start c exchange_code verify
        on_login r state login_nonce u h in
    let new : NewSession = record {
      subject = signed.id.subject;
      token = some (assume_token_expiry start signed.tok).1;
      id_token = signed.raw_token;
    } in
    (
      signed.k,
      signed.raw_token,
      signed.id,
      signed.tok,
      signed.there,
      signed.name,
      signed.exchanged,
      signed.id_token,
      signed.verified,
      λ later random le lt.
          rw (signed.name, signed.value)
            (created-read c j s age start nonce v m w fits some_age short n new
              (assume_token_expiry start signed.tok).1 refl signed.session signed.stored rendered a
              later le lt),
      λ later random over.
          rw (signed.name, signed.value)
            (created-clears c j s age start nonce v m w fits some_age short n new
              (assume_token_expiry start signed.tok).1 refl signed.session signed.stored rendered a
              later over),
    )
