-- ===== src/Auth/Login.antt =====
-- The login of application_auth.go: the pages and handlers under /auth, and the cookies of a login
-- attempt. The provider is a parameter: `auth_code_url` is the oauth2 configuration's AuthCodeURL,
-- `exchange_code` its Exchange, and `verify` the verifier of ID tokens. One instant stands for the
-- calls of time.Now of one handler.
pub mod Creations
pub mod Creation
pub mod Landing
pub mod Browser
pub mod Attempt
use howdah.Base.{
  ℕ, ◌+◌, ◌-◌, ◌*◌, String, List, [], ◌∷◌, ◌++◌, Bool, true, false, not, Option, none, some, ◌==◌,
  if◌then◌else◌,
}
use howdah.Base.Bytes.{Bytes, bytes, bytes_eq}
use howdah.Base.Dict.{lookup}
use howdah.Base.Int.{ℤ, pos, negsuc}
use howdah.BasePath.{path, resolve_redirect}
use howdah.Clock.{Time, minute, hour, is_zero_time}
use howdah.Crypto.{Crypto}
use howdah.Encoding.Base64.{raw_url_encode}
use howdah.Envelope.{seal, open_value}
use howdah.Errors.{
  Error, message, lit, raw, wrap, sentinel, skip_render, Result, ok, err, wrapped, ◌>>=◌,
}
use howdah.Errors.Http.{t_literal, literal_http_error, status_forbidden, tl}
use howdah.Errors.{TextLabel}
use howdah.Session.{OauthToken, NewSession, StoredToken, TokenStore}
use howdah.Auth.{
  Cookie, Effect, logged, asked, redirected, Call, creates_session, deletes_session, Level, warn,
  info, error, OidcAuth, Request, or_empty, Step, prefix, handle, plain, set_cookie,
  set_token_cookie, clear_token_cookie,
}
use howdah.Auth.Contexts.{IdToken}
use howdah.Auth.Guard.{status_found}

abbrev pub assumed_access_token_lifetime : ℕ
assumed_access_token_lifetime = 5 * minute

abbrev pub auth_redir_cookie_name : Bytes
auth_redir_cookie_name = bytes "auth_redir"

abbrev pub login_failed_param : Bytes
login_failed_param = bytes "login_failed"

-- The login page, whose contents are whether the visitor comes from a failed attempt.
pub record LoginPage : Type 0 where
  pub template : String
  pub title : TextLabel
  pub failed : Bool

abbrev pub query_get : Request → Bytes → Bytes
unfolding lookup
query_get r name = or_empty (lookup name r.query)

-- The warning of an assumed lifetime.
abbrev pub no_expires_in : Error
no_expires_in =
    message
      (lit "the token endpoint returned no expires_in, assuming a short access token lifetime" ∷ [])

unfoldable pub assume_token_expiry : Time → OauthToken → List Effect × OauthToken
assume_token_expiry now tok = if not (is_zero_time tok.expiry) then ([], tok) else (
  logged warn no_expires_in ∷ [],
  record tok { expiry = now + assumed_access_token_lifetime },
)

-- `random` is what rand.Reader gives.
abbrev pub rand_string : Result Bytes → Result Bytes
rand_string random = do b ← random; ok (raw_url_encode b)

module _ {ℓ} {A : Type ℓ} where
  infixl 5 ◌then_do◌
  abbrev pub ◌then_do◌ {κ} : {B : Type κ} → Step A → (A → Step B) → Step B
  s then_do next = handle s (λ e. ([], err e)) next

  abbrev pub lifted : Result A → Step A
  lifted r = ([], r)

abbrev pub refuse_unless : Bool → String → Step (Unit {0})
refuse_unless true text = ([], ok tt)
refuse_unless false text = ([], err (message (lit text ∷ [])))

module _ (rendered : Cookie → Bytes) (a : OidcAuth) where
  unfoldable pub set_callback_cookie : Bytes → Bytes → List Effect
  unfolding set_cookie
  set_callback_cookie name value =
      set_cookie rendered (plain name value (path a.base_path (bytes "/auth")) none (pos 3600))
        a.insecure

  unfoldable pub clear_callback_cookie : Time → Bytes → List Effect
  unfolding set_cookie
  clear_callback_cookie now name =
      set_cookie rendered
        (plain name [] (path a.base_path (bytes "/auth")) (some (now - 24 * hour)) (negsuc 0))
        a.insecure

  abbrev pub failed_url : Bytes
  failed_url =
      path a.base_path (bytes "/auth/login") ++ (bytes "?" ++ (login_failed_param ++ bytes "=1"))

  unfoldable pub fail_login : Error → Step (Unit {0})
  fail_login e =
      (logged warn e ∷ redirected status_found failed_url ∷ [], err (sentinel skip_render))

  unfoldable pub auth_login : Request → LoginPage
  auth_login r = record {
    template = "login.html";
    title = tl "LogIn" ("Log In" ∷ []);
    failed = not (query_get r login_failed_param == []);
  }

  module _ (c : Crypto) (now : Time) where
    unfoldable pub set_auth_redir_cookie : Bytes → Result Bytes → Result (List Effect)
    unfolding seal set_callback_cookie
    set_auth_redir_cookie redirect random = do
      value ←
          wrapped (lit "seal redirect target" ∷ [])
            (seal c (some a.keyring) now a.redir_domain redirect random)
      ok (set_callback_cookie auth_redir_cookie_name value)

    -- An unusable cookie is logged and read as no target.
    abbrev pub redir_opened : Result (Bytes × Bool) → List Effect × Option Bytes
    redir_opened (err e) = (logged info e ∷ [], none)
    redir_opened (ok (plaintext, current)) = ([], some plaintext)

    abbrev pub redir_value : Option Bytes → List Effect × Option Bytes
    redir_value none = ([], none)
    redir_value (some value) = redir_opened (open_value c (some a.keyring) now a.redir_domain value)

    unfoldable pub read_auth_redir_cookie : Request → List Effect × Option Bytes
    unfolding lookup open_value
    read_auth_redir_cookie r = redir_value (lookup auth_redir_cookie_name r.cookies)

    abbrev pub redirect_cookie : Bytes → Result Bytes → Result (List Effect)
    redirect_cookie redirect random =
        if redirect == []
        then ok (clear_callback_cookie now auth_redir_cookie_name)
        else wrapped (lit "set auth redirect cookie" ∷ []) (set_auth_redir_cookie redirect random)

    module _ (auth_code_url : Bytes → Bytes → Bytes) where
      -- The three reads of the random source, of which the last is for the sealed target.
      unfoldable pub auth_redirect :
          Request → Result Bytes → Result Bytes → Result Bytes → Step (Unit {0})
      unfolding set_callback_cookie clear_callback_cookie set_auth_redir_cookie lookup
      auth_redirect r first second third =
          lifted (wrapped (lit "generate random state" ∷ []) (rand_string first)) then_do λ state.
          lifted (wrapped (lit "generate random nonce" ∷ []) (rand_string second)) then_do λ nonce.
          prefix
            (set_callback_cookie (bytes "state") state ++ set_callback_cookie (bytes "nonce") nonce)
            (lifted (redirect_cookie (query_get r (bytes "redirect")) third) then_do λ effects. (
              effects ++ (redirected status_found (auth_code_url state nonce) ∷ []),
              err (sentinel skip_render),
            ))

  module _ (store : TokenStore) (now : Time) where
    abbrev pub deleted : Result (Unit {0}) → List Effect
    deleted (ok u) = []
    deleted (err e) = logged error e ∷ []

    abbrev pub delete_handle : Option Bytes → List Effect
    delete_handle none = []
    delete_handle (some value) = asked (deletes_session value) ∷ deleted (store.delete value)

    unfoldable pub forget_session : Request → List Effect
    unfolding lookup
    forget_session r = delete_handle (lookup a.cookie_name r.cookies)

    unfoldable pub auth_logout : Request → Step (Unit {0})
    unfolding forget_session clear_token_cookie
    auth_logout r = (
      forget_session r
          ++ (clear_token_cookie rendered a now
              ++ (redirected status_found (path a.base_path (bytes "/")) ∷ [])),
      err (sentinel skip_render),
    )

    module _ (c : Crypto) (exchange_code : Bytes → Result OauthToken)
        (verify : Bytes → Result IdToken) (on_login : Option (IdToken → Result (Unit {0}))) where
      abbrev pub raw_id_token : Option Bytes → Step Bytes
      raw_id_token none = ([], err (message (lit "the token response carries no id_token" ∷ [])))
      raw_id_token (some raw_token) = ([], ok raw_token)

      abbrev pub run_callback : Option (IdToken → Result (Unit {0})) → IdToken → Step (Unit {0})
      run_callback none id = ([], ok tt)
      run_callback (some callback) id =
          ([], wrapped (lit "the login callback refused the login" ∷ []) (callback id))

      abbrev pub create_step : NewSession → Step StoredToken
      create_step new = (
        asked (creates_session new) ∷ [],
        wrapped (lit "create the session" ∷ []) (store.create new),
      )

      abbrev pub cookie_set : StoredToken → Step (Unit {0})
      cookie_set session =
          lifted (wrapped (lit "set the session cookie" ∷ []) (set_token_cookie rendered a session))
          then_do λ effects. (effects, ok tt)

      -- From the verified ID token on.
      abbrev pub begin_session : OauthToken → Bytes → IdToken → Step (Unit {0})
      begin_session tok raw_token id = run_callback on_login id then_do λ u.
          prefix (assume_token_expiry now tok).0 (
            create_step (record {
              subject = id.subject;
              token = some (assume_token_expiry now tok).1;
              id_token = raw_token;
            })
            then_do cookie_set)

      -- What comes after the callback cookies are cleared, up to the redirect.
      unfoldable pub sign_in : Request → Bytes → Bytes → Step (Unit {0})
      unfolding assume_token_expiry set_token_cookie lookup
      sign_in r state nonce =
          refuse_unless (query_get r (bytes "state") == state) "state did not match" then_do λ u.
          lifted (
            wrapped (lit "exchange the authorization code" ∷ [])
              (exchange_code (query_get r (bytes "code"))))
          then_do λ tok. raw_id_token tok.id_token then_do λ raw_token.
              lifted (wrapped (lit "verify the ID token" ∷ []) (verify raw_token)) then_do λ id.
              refuse_unless (id.nonce == nonce) "nonce did not match" then_do λ u.
              begin_session tok raw_token id

      abbrev pub clear_callback_cookies : List Effect
      clear_callback_cookies =
          clear_callback_cookie now (bytes "state")
          ++ (clear_callback_cookie now (bytes "nonce")
              ++ clear_callback_cookie now auth_redir_cookie_name)

      -- With the values of the state and nonce cookies.
      abbrev pub attempt : Request → Bytes → Bytes → Step (Unit {0})
      attempt r state nonce =
          let (logs, target) = read_auth_redir_cookie c now r in
          prefix (logs ++ clear_callback_cookies) (
            handle (sign_in r state nonce) fail_login (λ u. (
              redirected status_found (resolve_redirect a.base_path (or_empty target)) ∷ [],
              err (sentinel skip_render),
            )))

      abbrev pub with_nonce : Request → Bytes → Option Bytes → Step (Unit {0})
      with_nonce r state none = fail_login (message (lit "no nonce cookie" ∷ []))
      with_nonce r state (some nonce) = attempt r state nonce

      abbrev pub with_state : Request → Option Bytes → Step (Unit {0})
      with_state r none = fail_login (message (lit "no state cookie" ∷ []))
      with_state r (some state) = with_nonce r state (lookup (bytes "nonce") r.cookies)

      abbrev pub denied : Bytes → Bytes → Error
      denied oidc_err desc = literal_http_error status_forbidden (
          message
            (lit "login denied by provider: " ∷ raw (if desc == [] then oidc_err else desc) ∷ []))

      unfoldable pub auth_callback : Request → Step (Unit {0})
      unfolding lookup sign_in fail_login clear_callback_cookie read_auth_redir_cookie
          resolve_redirect
      auth_callback r =
          let oidc_err = query_get r (bytes "error") in
          if not (oidc_err == [])
          then ([], err (denied oidc_err (query_get r (bytes "error_description"))))
          else with_state r (lookup (bytes "state") r.cookies)
