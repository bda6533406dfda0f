-- ===== src/Auth/Guard/Unavailable.antt =====
-- A session that could not be resolved keeps its cookie.
use howdah.Base.{
  ◌≡◌, ◌≢◌, List, [], ◌∷◌, ◌++◌, false, not, Option, none, some, refl, ap, arith, Bool-cases, inl,
  inr, if◌then◌else◌,
}
use howdah.Base.Bytes.{Bytes, bytes}
use howdah.Errors.{Error, Result, ok, err, Result-cases}
use howdah.Errors.Http.{new_http_error}
use howdah.Session.{OauthToken, StoredToken, TokenStore}
use howdah.Auth.{
  Cookie, Effect, logged, OidcAuth, Request, Step, prefix, handle, session_gone,
  session_unavailable_error, Level, clear_token_cookie, reject_token_cookie, read_token_cookie,
  require_token, resolve_handle, from_cookie, no_token,
}
use howdah.Auth.Cookies.{read_token_cookie-has_token}
use howdah.Auth.Contexts.{IdToken, Context, session_context, with_bearer_token}
use howdah.Auth.Guard.{Instants, check_session, require_auth, verified, login_first}
use howdah.Auth.Guard.Writes.{
  cookie_writes, cookie_writes-append, reject-writes_kept, check_with-Once,
}

module _ (rendered : Cookie → Bytes) (a : OidcAuth) (store : TokenStore)
    (exchange : OauthToken → Result OauthToken) (t : Instants) where
  -- A step that fails and leaves the session has not written the cookie.
  abbrev Keeps : List Effect → Result StoredToken → Type 0
  Keeps effects result =
      (e : Error)
      → result ≡ err e
      → session_gone e ≡ false
      → cookie_writes a.cookie_name effects ≡ 0

  reject-Keeps : (e : Error) → Keeps (reject_token_cookie rendered a t.read_at e) (err e)
  reject-Keeps e f h kept =
      let same : e ≡ f = ground (arith, h) in
      reject-writes_kept rendered a t.read_at e (cc (same, kept))

  require_token-Keeps :
      (session : StoredToken) (tok : Option OauthToken)
      → Keeps
          (require_token rendered store.get a t.read_at session tok).0
          (require_token rendered store.get a t.read_at session tok).1
  require_token-Keeps session none = reject-Keeps (no_token rendered store.get)
  require_token-Keeps session (some tok) = λ e h kept. refl

  resolve_handle-Keeps :
      (r : Result StoredToken)
      → Keeps
          (resolve_handle rendered store.get a t.read_at r).0
          (resolve_handle rendered store.get a t.read_at r).1
  resolve_handle-Keeps (err e) = reject-Keeps e
  resolve_handle-Keeps (ok session) = require_token-Keeps session session.token

  from_cookie-Keeps :
      (value : Option Bytes)
      → Keeps
          (from_cookie rendered store.get a t.read_at value).0
          (from_cookie rendered store.get a t.read_at value).1
  from_cookie-Keeps none = λ e h kept. refl
  from_cookie-Keeps (some value) = resolve_handle-Keeps (store.get value)

  read-Keeps :
      (cookies : List (Bytes × Bytes))
      → Keeps
          (read_token_cookie rendered store.get a t.read_at cookies).0
          (read_token_cookie rendered store.get a t.read_at cookies).1
  unfolding read_token_cookie
  read-Keeps cookies = from_cookie-Keeps _

  module _ (verify : Bytes → Result IdToken) (with_headers : Context → Bytes → Result Context) where
    -- The step says that the session is unavailable, on account of `e`, only where it did not write.
    abbrev KeptStep : Error → Step Context → Type 0
    KeptStep e s = s.1 ≡ err (session_unavailable_error e) → cookie_writes a.cookie_name s.0 ≡ 0

    session_context-available :
        (ctx : Context) (tok : OauthToken) (id : IdToken) (e : Error)
        → session_context with_headers ctx tok id ≢ err (session_unavailable_error e)
    unfolding session_context new_http_error
    session_context-available ctx tok id e h =
        elim (Result-cases (
          with_headers (with_bearer_token ctx tok.access_token)
            (bytes "Bearer " ++ tok.access_token))) [
              | inl (headed, got) ↦ absurd (ground (arith, got, h))
              | inr (f, failed) ↦ absurd (ground (arith, failed, h))
            ]

    verified-available :
        (ctx : Context) (r : Request) (tok : Option OauthToken) (e : Error)
        → (verified rendered a store exchange t verify with_headers ctx
            (login_first rendered a store exchange t verify with_headers r)
            tok).1
          ≢ err (session_unavailable_error e)
    unfolding new_http_error
    verified-available ctx r none e h = ground arith
    verified-available ctx r (some tok) e h = elim (Result-cases (verify tok.access_token)) [
      | inl (id, got) ↦ session_context-available ctx tok id e (rw got at h)
      | inr (f, failed) ↦ absurd (ground (arith, (rw failed at h)))
    ]

    checked-Kept :
        (ctx : Context) (r : Request) (e : Error) (s : Step (Option OauthToken))
        → ((f : Error) → s.1 ≡ err f → cookie_writes a.cookie_name s.0 ≡ 0)
        → KeptStep e (
            handle s
              (λ f.
                if not (session_gone f)
                then (logged Level.error f ∷ [], err (session_unavailable_error f))
                else prefix
                    (logged Level.error f ∷ clear_token_cookie rendered a t.cleared_at)
                    (login_first rendered a store exchange t verify with_headers r))
              (λ tok.
                verified rendered a store exchange t verify with_headers ctx
                  (login_first rendered a store exchange t verify with_headers r)
                  tok))
    unfolding new_http_error
    checked-Kept ctx r e (effects, ok tok) never h = absurd (verified-available ctx r tok e h)
    checked-Kept ctx r e (effects, err f) never h = elim (Bool-cases (session_gone f)) [
      | inl gone ↦ absurd (ground (arith, (rw gone at h)))
      | inr kept ↦ rw kept (
          omega (
            arith,
            cookie_writes-append a.cookie_name effects (logged Level.error f ∷ []),
            never f refl,
          ))
    ]

    read_then-Kept :
        (r : Request) (e : Error) (s : Step StoredToken) (next : StoredToken → Step Context)
        → Keeps s.0 s.1
        → ((session : StoredToken) → s.1 ≡ ok session → cookie_writes a.cookie_name s.0 ≡ 0)
        → ((session : StoredToken) → KeptStep e (next session))
        → KeptStep e (
            handle s
              (λ f.
                if not (session_gone f)
                then ([], err (session_unavailable_error f))
                else login_first rendered a store exchange t verify with_headers r)
              next)
    unfolding new_http_error
    read_then-Kept r e (effects, ok session) next keeps silent n h = omega (
      arith,
      cookie_writes-append a.cookie_name effects (next session).0,
      silent session refl,
      n session h,
    )
    read_then-Kept r e (effects, err f) next keeps silent n h = elim (Bool-cases (session_gone f)) [
      | inl gone ↦ absurd (ground (arith, (rw gone at h)))
      | inr kept ↦
          rw kept (omega (arith, cookie_writes-append a.cookie_name effects [], keeps f refl kept))
    ]

    -- A request that RequireAuth answers with an unavailable session, a 503, leaves the browser's
    -- session cookie as it is: the response neither sets nor clears it.
    pub require_auth-unavailable :
        (ctx : Context) (r : Request) (e : Error)
        → (require_auth rendered a store exchange t verify with_headers ctx r).1
          ≡ err (session_unavailable_error e)
        → cookie_writes a.cookie_name
            (require_auth rendered a store exchange t verify with_headers ctx r).0
          ≡ 0
    unfolding require_auth
    require_auth-unavailable ctx r e =
        read_then-Kept r e (read_token_cookie rendered store.get a t.read_at r.cookies) _
          (read-Keeps r.cookies)
          (λ session h.
            ap (cookie_writes a.cookie_name)
              (read_token_cookie-has_token rendered a t.read_at store.get r.cookies session h).0)
          (λ session.
            checked-Kept ctx r e (check_session rendered a store exchange t session)
              (check_with-Once rendered a store exchange t session session.token).1)
