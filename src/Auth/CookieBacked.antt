-- ===== src/Auth/CookieBacked.antt =====
-- The store that an OIDCAuth builds for itself, as the token store of a request.
pub mod Signing
pub mod Lasting
use howdah.Base.{
  ℕ, ◌+◌, ◌≡◌, ◌≤◌, ◌<◌, ◌^◌, List, [], ◌∷◌, ◌++◌, Bool, true, false, Option, none, some, refl, ap,
  sym, ◌∙◌, arith, Bool-cases, inl, inr, In, In-append_right, append-nil, ◌==◌, ==_iff, nat_eq,
  subst, ltb, length, not, if◌then◌else◌,
}
use howdah.Base.Bytes.{Bytes, bytes, bytes_eq}
use howdah.Base.Dict.{lookup}
use howdah.Base.Int.{pos}
use howdah.BasePath.{path}
use howdah.Clock.{Time}
use howdah.Crypto.{Crypto, IsAead}
use howdah.CookieStore.{Codec, IsCodec, CookieTokenStore}
use howdah.CookieStore
use howdah.CookieStore.Expiry.{IsNonce, Lineage, login, get-Lineage}
use howdah.Errors.{
  Error, Result, ok, err, is, no_session, message, lit, wrapped, wrapped-eq-ok, Result-cases,
}
use howdah.Keyring.Acceptance.{IsKeyring}
use howdah.Session.{OauthToken, without_extra, NewSession, StoredToken, TokenStore}
use howdah.Auth.{
  Cookie, Effect, sent, OidcAuth, Request, Step, prefix, handle, set_cookie, set_token_cookie,
  read_token_cookie, resolve_handle, plain,
}
use howdah.Auth.Cookies.{clears, read_token_cookie-clears}
use howdah.Auth.Login.Creation.{raw_id_token-ok}
use howdah.Auth.Contexts.{IdToken}
use howdah.Auth.Guard.{panicked}
use howdah.Auth.Login.{
  query_get, assume_token_expiry, ◌then_do◌, lifted, refuse_unless, raw_id_token, run_callback,
  create_step, cookie_set, begin_session, sign_in,
}

abbrev pub some_session : Result StoredToken → Result (Option StoredToken)
some_session (err e) = err e
some_session (ok session) = ok (some session)

-- exchangeToken on the token of a session, which is not nil.
abbrev pub nilable :
    (OauthToken → Result OauthToken) → Option OauthToken → Result (Option OauthToken)
nilable exchange none = err panicked
nilable exchange (some tok) = elim (exchange tok) [ err e ↦ err e | ok renewed ↦ ok (some renewed) ]

-- The store at one instant, with what rand.Read gives for a nonce.
unfoldable pub cookie_backed : Crypto → Codec → CookieTokenStore → Time → Result Bytes → TokenStore
cookie_backed c j s now random = record {
  create = λ new. CookieStore.create c j s now new random;
  get = λ handle. CookieStore.get c j s now handle;
  reseal = λ session. CookieStore.reseal c j s now (some session) random;
  delete = λ handle. CookieStore.delete s handle;
  refresh = λ session exchange.
      some_session (CookieStore.refresh c j s now session (nilable exchange) random);
}
