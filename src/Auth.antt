-- ===== src/Auth.antt =====
-- The cookies of application_auth.go, with `setCookie` of cookies.go: the session cookie and what a
-- failed read does to it. What is done is the list of effects, in order. `store_get` is the store's Get
-- and `rendered` the text that net/http makes of a cookie.
pub mod Cookies
pub mod Contexts
pub mod Guard
pub mod Login
pub mod CookieBacked
pub mod Exchange
pub mod Options
pub mod Registration
pub mod Sent
use howdah.Base.{
  String, ℕ, ◌+◌, ◌-◌, ◌*◌, List, [], ◌∷◌, ◌++◌, Bool, true, false, not, ◌||◌, Option, none, some,
  ◌==◌, nat_eq, if◌then◌else◌, ltb, length,
}
use howdah.Base.Bytes.{Bytes, bytes, bytes_eq}
use howdah.Base.Dict.{lookup}
use howdah.Base.Int.{ℤ, pos, negsuc}
use howdah.BasePath.{BasePath, path}
use howdah.Clock.{Time, hour}
use howdah.Errors.{
  Error, message, lit, raw, wrap, wrap_both, sentinel, no_session, refresh_rejected, authentication,
  Result, ok, err, is,
}
use howdah.Errors.Http.{new_http_error, status_service_unavailable}
use howdah.Keyring.{CookieKeyring}
use howdah.Session.{OauthToken, NewSession, StoredToken}

-- The fields of an http.Cookie that the program sets. `lax` is SameSite=Lax; the Domain is never set.
pub record Cookie : Type 0 where
  pub name : Bytes
  pub value : Bytes
  pub path : Bytes
  pub expires : Option Time
  pub max_age : ℤ
  pub http_only : Bool
  pub lax : Bool
  pub secure : Bool

pub data Level : Type 0 where
  info warn error : Level

-- The calls that change what a store holds.
pub data Call : Type 0 where
  creates_session : NewSession → Call
  refreshes_session : StoredToken → Call
  deletes_session : Bytes → Call

-- `redirected` is the call of http.Redirect, with the status and the address that it is given; the
-- Location that it writes for the address is in BasePath.Location. `replied` is a status with a text or none, by http.Error and WriteHeader.
pub data Effect : Type 0 where
  sent : Cookie → Effect
  too_large : Bytes → Effect
  logged : Level → Error → Effect
  asked : Call → Effect
  redirected : ℕ → Bytes → Effect
  replied : ℕ → String → Effect

abbrev pub cookie_size_limit : ℕ
cookie_size_limit = 4096

abbrev pub cookie_attribute_budget : ℕ
cookie_attribute_budget = 120

-- An OIDCAuth, less the provider, its verifiers and its store, which are arguments of what uses them,
-- and less the maximum session age, which goes into the store.
pub record OidcAuth : Type 0 where
  pub keyring : CookieKeyring
  pub base_path : BasePath
  pub cookie_name : Bytes
  pub insecure : Bool
  pub no_logout_menu_item : Bool
  pub session_domain : Bytes
  pub redir_domain : Bytes

-- What the program reads of an http.Request: its URL as text, its query and its cookies, of which the
-- first of a name counts.
pub record Request : Type 0 where
  pub url : Bytes
  pub query : List (Bytes × Bytes)
  pub cookies : List (Bytes × Bytes)

-- `r.URL.Query().Get(name)`, which is empty for what is not there.
abbrev pub or_empty : Option Bytes → Bytes
or_empty none = []
or_empty (some value) = value

-- A part of a handler: what it does, and its result.
abbrev pub Step {ℓ} : Type ℓ → Type ℓ
Step A = List Effect × Result A

abbrev pub prefix {ℓ} : {A : Type ℓ} → List Effect → Step A → Step A
prefix effects s = (effects ++ s.0, s.1)

-- `x, err := …; if err != nil { … }` and what follows.
abbrev pub handle {ℓ κ} :
    {A : Type ℓ} {B : Type κ} → Step A → (Error → Step B) → (A → Step B) → Step B
handle (effects, err e) failed next = prefix effects (failed e)
handle (effects, ok x) failed next = prefix effects (next x)

-- A cookie before `setCookie` gives it its attributes.
abbrev pub plain : Bytes → Bytes → Bytes → Option Time → ℤ → Cookie
plain name value at expires max_age = record {
  name = name;
  value = value;
  path = at;
  expires = expires;
  max_age = max_age;
  http_only = false;
  lax = false;
  secure = false;
}

abbrev pub session_gone : Error → Bool
session_gone e = is e no_session || is e refresh_rejected

abbrev pub session_unavailable_error : Error → Error
session_unavailable_error e =
    new_http_error status_service_unavailable "SessionUnavailable"
      "Your session could not be read, please try again" e

module _ (rendered : Cookie → Bytes) where
  abbrev pub send : Cookie → List Effect
  send c =
      if ltb cookie_size_limit (length (rendered c))
      then too_large c.name ∷ sent c ∷ []
      else sent c ∷ []

  unfoldable pub set_cookie : Cookie → Bool → List Effect
  set_cookie c insecure = send (record c { http_only = true; lax = true; secure = not insecure })

  unfoldable pub set_token_cookie : OidcAuth → StoredToken → Result (List Effect)
  unfolding set_cookie
  set_token_cookie a session =
      if ltb cookie_size_limit
        (length session.handle + length a.cookie_name + cookie_attribute_budget)
      then err (
          message (
            lit
              "the session cookie would be over the bytes that a cookie can hold: the provider's tokens are too large to keep in a cookie"
            ∷ []))
      else ok (
          set_cookie
            (plain a.cookie_name session.handle (path a.base_path (bytes "/"))
              (some session.expires_at) (pos 0))
            a.insecure)

  unfoldable pub clear_token_cookie : OidcAuth → Time → List Effect
  unfolding set_cookie
  clear_token_cookie a now =
      set_cookie
        (plain a.cookie_name [] (path a.base_path (bytes "/")) (some (now - 24 * hour)) (negsuc 0))
        a.insecure

  unfoldable pub reject_token_cookie : OidcAuth → Time → Error → List Effect
  unfolding clear_token_cookie is
  reject_token_cookie a now e =
      if not (session_gone e)
      then logged error e ∷ []
      else logged (if is e authentication then warn else info) e ∷ clear_token_cookie a now

  module _ (store_get : Bytes → Result StoredToken) where
    abbrev pub no_token : Error
    no_token = wrap (lit "the store returned a session with no token" ∷ []) (sentinel no_session)

    abbrev pub require_token :
        OidcAuth → Time → StoredToken → Option OauthToken → List Effect × Result StoredToken
    require_token a now session none = (reject_token_cookie a now no_token, err no_token)
    require_token a now session (some tok) = ([], ok session)

    abbrev pub resolve_handle :
        OidcAuth → Time → Result StoredToken → List Effect × Result StoredToken
    resolve_handle a now (err e) = (reject_token_cookie a now e, err e)
    resolve_handle a now (ok session) = require_token a now session session.token

    abbrev pub from_cookie : OidcAuth → Time → Option Bytes → List Effect × Result StoredToken
    from_cookie a now none = (
      [],
      err (
          wrap_both (sentinel no_session) (lit "read session cookie" ∷ [])
            (message (lit "http: named cookie not present" ∷ []))),
    )
    from_cookie a now (some value) = resolve_handle a now (store_get value)

    -- The cookies of the request by their names, of which the first counts.
    unfoldable pub read_token_cookie :
        OidcAuth → Time → List (Bytes × Bytes) → List Effect × Result StoredToken
    unfolding reject_token_cookie lookup
    read_token_cookie a now cookies = from_cookie a now (lookup a.cookie_name cookies)
