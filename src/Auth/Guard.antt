-- ===== src/Auth/Guard.antt =====
-- RequireAuth, OptionalAuth and Keepalive of application_auth.go, with the check of the access token's
-- expiry. `exchange` is exchangeToken and `verify` the provider's verifier of access tokens. The
-- instants are those of the calls of time.Now, in their order.
pub mod Writes
pub mod Once
pub mod Unavailable
pub mod Silence
pub mod Optional
use howdah.Base.{
  ℕ, ◌*◌, List, [], ◌∷◌, ◌++◌, Bool, true, false, not, Option, none, some, ◌==◌, if◌then◌else◌,
}
use howdah.Base.Bytes.{Bytes, bytes, bytes_eq}
use howdah.Base.Int.{pos, int_ltb}
use howdah.BasePath.{path}
use howdah.Clock.{Time, Duration, second, time_sub}
use howdah.Encoding.Query.{encode_values}
use howdah.Errors.{
  Error, message, lit, wrap, wrap_both, sentinel, no_session, skip_render, Result, ok, err, wrapped,
  ◌>>=◌,
}
use howdah.Errors.Http.{new_http_error, status_internal_server_error, status_service_unavailable}
use howdah.Session.{OauthToken, StoredToken, TokenStore}
use howdah.Auth.Contexts.{Context, IdToken, session_context}
use howdah.Auth.{
  Cookie, Effect, logged, asked, redirected, replied, Call, refreshes_session, Level, error,
  OidcAuth, Request, Step, prefix, handle, session_gone, session_unavailable_error,
  set_token_cookie, clear_token_cookie, read_token_cookie,
}

pub record Instants : Type 0 where
  pub read_at : Time
  pub until_at : Time
  pub cleared_at : Time

abbrev pub token_refresh_margin : Duration
token_refresh_margin = pos (10 * second)

abbrev pub status_no_content : ℕ
status_no_content = 204

abbrev pub status_found : ℕ
status_found = 302

abbrev pub status_unauthorized : ℕ
status_unauthorized = 401

-- A nil dereference: only a store whose Reseal drops the token brings it about.
abbrev pub panicked : Error
panicked = message (lit "runtime error: invalid memory address or nil pointer dereference" ∷ [])

module _ (a : OidcAuth) where
  unfoldable pub login_url : Request → Bytes
  unfolding encode_values
  login_url r =
      path a.base_path (bytes "/auth/login")
      ++ (bytes "?" ++ encode_values (bytes "redirect") r.url)

module _ (rendered : Cookie → Bytes) (a : OidcAuth) (store : TokenStore)
    (exchange : OauthToken → Result OauthToken) (t : Instants) where
  abbrev pub kept_on_error : StoredToken → Result StoredToken → List Effect × StoredToken
  kept_on_error session (err e) = (logged error e ∷ [], session)
  kept_on_error session (ok resealed) = ([], resealed)

  unfoldable pub reseal_session : StoredToken → List Effect × StoredToken
  reseal_session session = kept_on_error session (store.reseal session)

  abbrev pub or_logged : Result (List Effect) → List Effect
  or_logged (ok effects) = effects
  or_logged (err e) = logged error e ∷ []

  unfoldable pub migrate_session_cookie : StoredToken → List Effect
  unfolding reseal_session set_token_cookie
  migrate_session_cookie session =
      let (logs, resealed) = reseal_session session in
      if resealed.handle == session.handle
      then logs
      else logs ++ or_logged (set_token_cookie rendered a resealed)

  abbrev pub sends : Result (List Effect) → Option OauthToken → Step (Option OauthToken)
  sends (ok effects) tok = (effects, ok tok)
  sends (err e) tok =
      ([], err (wrap_both (sentinel no_session) (lit "set the session cookie" ∷ []) e))

  -- The handle of the session that came in, and the refreshed session as it is to be kept.
  abbrev pub handed_out : Bytes → StoredToken → Step (Option OauthToken)
  handed_out handle moved =
      if moved.handle == handle
      then ([], ok moved.token)
      else sends (set_token_cookie rendered a moved) moved.token

  abbrev pub with_refreshed :
      StoredToken → StoredToken → Option OauthToken → Step (Option OauthToken)
  with_refreshed session refreshed none = (
    [],
    err (
        wrap (lit "the store refreshed the session into one with no token" ∷ [])
          (sentinel no_session)),
  )
  with_refreshed session refreshed (some tok) =
      let (logs, moved) = if session.stale then reseal_session refreshed else ([], refreshed) in
      prefix logs (handed_out session.handle moved)

  abbrev pub refreshed_to : StoredToken → Result (Option StoredToken) → Step (Option OauthToken)
  refreshed_to session (err e) = ([], err (wrap (lit "refresh the access token" ∷ []) e))
  refreshed_to session (ok none) = with_refreshed session session none
  refreshed_to session (ok (some refreshed)) = with_refreshed session refreshed refreshed.token

  abbrev pub migrates : StoredToken → Bool → List Effect
  migrates session false = []
  migrates session true = migrate_session_cookie session

  -- `tok` is the token of the session.
  unfoldable pub check_token_expiry : StoredToken → OauthToken → Step (Option OauthToken)
  unfolding migrate_session_cookie reseal_session set_token_cookie
  check_token_expiry session tok =
      if int_ltb token_refresh_margin (time_sub tok.expiry t.until_at)
      then (migrates session session.stale, ok (some tok))
      else prefix (asked (refreshes_session session) ∷ [])
          (refreshed_to session (store.refresh session exchange))

  abbrev pub check_with : StoredToken → Option OauthToken → Step (Option OauthToken)
  check_with session none = ([], err panicked)
  check_with session (some tok) = check_token_expiry session tok

  abbrev pub check_session : StoredToken → Step (Option OauthToken)
  check_session session = check_with session session.token

  unfoldable pub keepalive : Request → Step (Unit {0})
  unfolding read_token_cookie check_token_expiry clear_token_cookie
  keepalive r =
      handle (read_token_cookie rendered store.get a t.read_at r.cookies)
        (λ e.
          if not (session_gone e)
          then (replied status_service_unavailable "session unavailable" ∷ [], ok tt)
          else (replied status_unauthorized "no session" ∷ [], ok tt))
        (λ session.
          handle (check_session session)
            (λ e.
              if not (session_gone e)
              then (
                logged error e ∷ replied status_service_unavailable "session unavailable" ∷ [],
                ok tt,
              )
              else (
                logged error e
                    ∷ (clear_token_cookie rendered a t.cleared_at
                        ++ (replied status_unauthorized "refresh failed" ∷ [])),
                ok tt,
              ))
            (λ tok. (replied status_no_content "" ∷ [], ok tt)))

  module _ (verify : Bytes → Result IdToken) (with_headers : Context → Bytes → Result Context) where
    abbrev pub login_first : Request → Step Context
    login_first r = (redirected status_found (login_url a r) ∷ [], err (sentinel skip_render))

    -- The context of the session, or what is done with an access token that does not verify.
    abbrev pub verified : Context → Step Context → Option OauthToken → Step Context
    verified ctx refused none = ([], err panicked)
    verified ctx refused (some tok) =
        handle ([], verify tok.access_token) (λ e. prefix (logged error e ∷ []) refused)
          (λ id. ([], session_context with_headers ctx tok id))

    unfoldable pub require_auth : Context → Request → Step Context
    unfolding read_token_cookie check_token_expiry clear_token_cookie login_url session_context
    require_auth ctx r =
        handle (read_token_cookie rendered store.get a t.read_at r.cookies)
          (λ e.
            if not (session_gone e) then ([], err (session_unavailable_error e)) else login_first r)
          (λ session.
            handle (check_session session)
              (λ e.
                if not (session_gone e)
                then (logged error e ∷ [], err (session_unavailable_error e))
                else prefix (logged error e ∷ clear_token_cookie rendered a t.cleared_at)
                    (login_first r))
              (λ tok. verified ctx (login_first r) tok))

    unfoldable pub optional_auth : Context → Request → Step Context
    unfolding read_token_cookie check_token_expiry clear_token_cookie session_context
    optional_auth ctx r =
        handle (read_token_cookie rendered store.get a t.read_at r.cookies) (λ e. ([], ok ctx))
          (λ session.
            handle (check_session session)
              (λ e. (
                logged error e
                    ∷ (if session_gone e then clear_token_cookie rendered a t.cleared_at else []),
                ok ctx,
              ))
              (λ tok. verified ctx ([], ok ctx) tok))

    -- The context that the next handler is called with.
    unfoldable pub optional_auth_middleware : Context → Request → List Effect × Context
    unfolding optional_auth
    optional_auth_middleware ctx r = elim (optional_auth ctx r).1 [
      | ok resolved ↦ ((optional_auth ctx r).0, resolved)
      | err e ↦ ((optional_auth ctx r).0 ++ (logged error e ∷ []), ctx)
    ]
