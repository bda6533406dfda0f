-- ===== src/Auth/Guard/Once.antt =====
-- A response cookie_writes the session cookie once at most.
use howdah.Base.{◌+◌, ◌≤◌, ◌≡◌, List, [], ◌∷◌, Option, none, some, refl, ap, arith, inl, inr}
use howdah.Base.Bytes.{Bytes}
use howdah.Errors.{Error, Result, ok, err, Result-cases}
use howdah.Session.{OauthToken, StoredToken, TokenStore}
use howdah.Auth.{
  Cookie, redirected, replied, OidcAuth, Request, Step, handle, clear_token_cookie,
  read_token_cookie, require_token, resolve_handle, from_cookie, no_token,
}
use howdah.Auth.Cookies.{read_token_cookie-has_token}
use howdah.Auth.Contexts.{IdToken, Context}
use howdah.Auth.Guard.{
  Instants, check_session, keepalive, require_auth, optional_auth, verified, login_url,
}
use howdah.Auth.Guard.Writes.{
  cookie_writes, cookie_writes-append, clear-writes, reject-writes, check_with-Once,
}

handle-writes {ℓ κ} :
    {A : Type ℓ} {B : Type κ} (name : Bytes) (s : Step A) (failed : Error → Step B)
    (next : A → Step B)
    → ((e : Error) → s.1 ≡ err e → cookie_writes name s.0 + cookie_writes name (failed e).0 ≤ 1)
    → ((x : A) → s.1 ≡ ok x → cookie_writes name s.0 + cookie_writes name (next x).0 ≤ 1)
    → cookie_writes name (handle s failed next).0 ≤ 1
handle-writes name (effects, err e) failed next f n =
    omega (arith, cookie_writes-append name effects (failed e).0, f e refl)
handle-writes name (effects, ok x) failed next f n =
    omega (arith, cookie_writes-append name effects (next x).0, n x refl)

module _ (rendered : Cookie → Bytes) (a : OidcAuth) (store : TokenStore)
    (exchange : OauthToken → Result OauthToken) (t : Instants) where
  require_token-writes :
      (session : StoredToken) (tok : Option OauthToken)
      → cookie_writes a.cookie_name (require_token rendered store.get a t.read_at session tok).0 ≤ 1
  require_token-writes session none =
      reject-writes rendered a t.read_at (no_token rendered store.get)
  require_token-writes session (some tok) = omega arith

  resolve_handle-writes :
      (r : Result StoredToken)
      → cookie_writes a.cookie_name (resolve_handle rendered store.get a t.read_at r).0 ≤ 1
  resolve_handle-writes (err e) = reject-writes rendered a t.read_at e
  resolve_handle-writes (ok session) = require_token-writes session session.token

  from_cookie-writes :
      (value : Option Bytes)
      → cookie_writes a.cookie_name (from_cookie rendered store.get a t.read_at value).0 ≤ 1
  from_cookie-writes none = omega arith
  from_cookie-writes (some value) = resolve_handle-writes (store.get value)

  read-writes :
      (cookies : List (Bytes × Bytes))
      → cookie_writes a.cookie_name (read_token_cookie rendered store.get a t.read_at cookies).0 ≤ 1
  unfolding read_token_cookie
  read-writes cookies = from_cookie-writes _

  -- A read that cookie_writes at most once, and what follows it.
  read_then-writes {ℓ} :
      {B : Type ℓ} (cookies : List (Bytes × Bytes)) (failed : Error → Step B)
      (next : StoredToken → Step B)
      → ((e : Error) → cookie_writes a.cookie_name (failed e).0 ≡ 0)
      → ((session : StoredToken) → cookie_writes a.cookie_name (next session).0 ≤ 1)
      → cookie_writes a.cookie_name
          (handle (read_token_cookie rendered store.get a t.read_at cookies) failed next).0
        ≤ 1
  read_then-writes cookies failed next f n =
      let s = read_token_cookie rendered store.get a t.read_at cookies in
      handle-writes a.cookie_name s failed next (λ e h. omega (arith, f e, read-writes cookies))
        (λ session h.
          let silent =
            (read_token_cookie-has_token rendered a t.read_at store.get cookies session h).0 in
          omega (arith, n session, ap (cookie_writes a.cookie_name) silent))

  check_then-writes {ℓ} :
      {B : Type ℓ} (session : StoredToken) (failed : Error → Step B)
      (next : Option OauthToken → Step B)
      → ((e : Error) → cookie_writes a.cookie_name (failed e).0 ≤ 1)
      → ((tok : Option OauthToken) → cookie_writes a.cookie_name (next tok).0 ≡ 0)
      → cookie_writes a.cookie_name
          (handle (check_session rendered a store exchange t session) failed next).0
        ≤ 1
  check_then-writes session failed next f n =
      let (once, never) = check_with-Once rendered a store exchange t session session.token in
      handle-writes a.cookie_name (check_session rendered a store exchange t session) failed next
        (λ e h. omega (arith, f e, never e h)) (λ tok h. omega (arith, n tok, once))

  keepalive-writes :
      (r : Request) → cookie_writes a.cookie_name (keepalive rendered a store exchange t r).0 ≤ 1
  unfolding keepalive
  keepalive-writes r =
      let cleared = clear-writes rendered a t.cleared_at in
      read_then-writes r.cookies _ _ (λ e. ground arith)
        (λ session.
          check_then-writes session _ _
            (λ e. ground (
              arith,
              cleared,
              cookie_writes-append a.cookie_name (clear_token_cookie rendered a t.cleared_at)
                  (replied 401 "refresh failed" ∷ []),
            ))
            (λ tok. refl))

  module _ (verify : Bytes → Result IdToken) (with_headers : Context → Bytes → Result Context) where
    verified-writes :
        (ctx : Context) (refused : Step Context) (tok : Option OauthToken)
        → cookie_writes a.cookie_name refused.0 ≡ 0
        → cookie_writes a.cookie_name
            (verified rendered a store exchange t verify with_headers ctx refused tok).0
          ≡ 0
    verified-writes ctx refused none h = refl
    verified-writes ctx refused (some tok) h = elim (Result-cases (verify tok.access_token)) [
      | inl (id, e) ↦ rw e refl
      | inr (e, failed) ↦ rw failed h
    ]

    require_auth-writes :
        (ctx : Context) (r : Request)
        → cookie_writes a.cookie_name
            (require_auth rendered a store exchange t verify with_headers ctx r).0
          ≤ 1
    unfolding require_auth
    require_auth-writes ctx r =
        let cleared = clear-writes rendered a t.cleared_at in
        read_then-writes r.cookies _ _ (λ e. ground arith)
          (λ session.
            check_then-writes session _ _
              (λ e. ground (
                arith,
                cleared,
                cookie_writes-append a.cookie_name (clear_token_cookie rendered a t.cleared_at)
                    (redirected 302 (login_url a r) ∷ []),
              ))
              (λ tok. verified-writes ctx _ tok refl))

    optional_auth-writes :
        (ctx : Context) (r : Request)
        → cookie_writes a.cookie_name
            (optional_auth rendered a store exchange t verify with_headers ctx r).0
          ≤ 1
    unfolding optional_auth
    optional_auth-writes ctx r =
        let cleared = clear-writes rendered a t.cleared_at in
        read_then-writes r.cookies _ _ (λ e. refl)
          (λ session.
            check_then-writes session _ _ (λ e. ground (arith, cleared))
              (λ tok. verified-writes ctx _ tok refl))

    -- Whatever the store, the token endpoint and the verifier answer, the response to a request that
    -- RequireAuth, OptionalAuth or Keepalive serves sets the session cookie once at most.
    pub session_cookie-once :
        (ctx : Context) (r : Request)
        → (cookie_writes a.cookie_name
              (require_auth rendered a store exchange t verify with_headers ctx r).0
            ≤ 1)
          × (cookie_writes a.cookie_name
                (optional_auth rendered a store exchange t verify with_headers ctx r).0
              ≤ 1)
          × (cookie_writes a.cookie_name (keepalive rendered a store exchange t r).0 ≤ 1)
    session_cookie-once ctx r =
        (require_auth-writes ctx r, optional_auth-writes ctx r, keepalive-writes r)
