-- ===== src/Auth/Options.antt =====
-- NewOIDCAuth of application_auth.go and its options. `S` is the type of the application's own token
-- stores. The provider and its verifiers are not looked at.
pub mod Building
use howdah.Base.{
  ℕ, ◌*◌, List, [], ◌∷◌, Bool, true, false, Option, none, some, ◌⊎◌, inl, inr, ◌&&◌, if◌then◌else◌,
}
use howdah.Base.Bytes.{Bytes, bytes}
use howdah.Base.Int.{ℤ, pos}
use howdah.BasePath.{BasePath}
use howdah.Clock.{Duration, hour, is_positive}
use howdah.CookieStore.{CookieTokenStore}
use howdah.Envelope.Domain.{session, auth_redirect, cookie_domain}
use howdah.Errors.{Error, message, lit, Result, ok, err, wrapped, ◌>>=◌}
use howdah.Keyring.{CookieKeyring}
use howdah.Auth.{OidcAuth}
use howdah.Auth.Contexts.{IdToken}

abbrev pub default_max_session_age : Duration
default_max_session_age = pos (12 * hour)

abbrev pub LoginCallback : Type 0
LoginCallback = IdToken → Result (Unit {0})

module _ (S : Type 0) where
  pub data OidcAuthOption : Type 0 where
    with_on_login : LoginCallback → OidcAuthOption
    with_base_path : BasePath → OidcAuthOption
    with_session_cookie_name : Bytes → OidcAuthOption
    with_max_session_age : Duration → OidcAuthOption
    with_token_store : Option S → OidcAuthOption
    without_logout_menu_item : OidcAuthOption
    with_insecure_cookies : OidcAuthOption

  -- The fields of an OIDCAuth that the options set.
  pub record Settings : Type 0 where
    pub on_login : Option LoginCallback
    pub base_path : BasePath
    pub cookie_name : Bytes
    pub max_session_age : Duration
    pub max_session_age_set : Bool
    pub store : Option S
    pub no_logout_menu_item : Bool
    pub insecure : Bool

  abbrev pub default_settings : Settings
  default_settings = record {
    on_login = none;
    base_path = [];
    cookie_name = bytes "token";
    max_session_age = default_max_session_age;
    max_session_age_set = false;
    store = none;
    no_logout_menu_item = false;
    insecure = false;
  }

  abbrev pub apply_option : OidcAuthOption → Settings → Settings
  apply_option (with_on_login fn) a = record a { on_login = some fn }
  apply_option (with_base_path bp) a = record a { base_path = bp }
  apply_option (with_session_cookie_name name) a = record a { cookie_name = name }
  apply_option (with_max_session_age d) a = record a {
    max_session_age = d;
    max_session_age_set = true;
  }
  apply_option (with_token_store store) a = record a { store = store }
  apply_option without_logout_menu_item a = record a { no_logout_menu_item = true }
  apply_option with_insecure_cookies a = record a { insecure = true }

  unfoldable pub apply_settings : List OidcAuthOption → Settings → Settings
  apply_settings [] a = a
  apply_settings (opt ∷ opts) a = apply_settings opts (apply_option opt a)

  -- The component, with the login callback and the store it works with.
  pub record Built : Type 0 where
    pub auth : OidcAuth
    pub on_login : Option LoginCallback
    pub store : S ⊎ CookieTokenStore

  abbrev pub store_of : Option S → Bool → CookieTokenStore → Result (S ⊎ CookieTokenStore)
  store_of none set own = ok (inr own)
  store_of (some store) true own = err (
      message (
        lit
          "WithMaxSessionAge configures the store howdah builds for itself and cannot be combined with WithTokenStore: the session lifetime is the store's"
        ∷ []))
  store_of (some store) false own = ok (inl store)

  abbrev pub build : CookieKeyring → Settings → Result Built
  build keyring a = do
    session_domain ← wrapped (lit "session cookie" ∷ []) (cookie_domain session a.cookie_name)
    redir_domain ←
        wrapped (lit "auth redirect cookie" ∷ []) (cookie_domain auth_redirect a.cookie_name)
    store ←
        store_of a.store a.max_session_age_set (record {
          keyring = keyring;
          domain = session_domain;
          max_session_age = a.max_session_age;
        })
    ok (record {
      auth = record {
        keyring = keyring;
        base_path = a.base_path;
        cookie_name = a.cookie_name;
        insecure = a.insecure;
        no_logout_menu_item = a.no_logout_menu_item;
        session_domain = session_domain;
        redir_domain = redir_domain;
      };
      on_login = a.on_login;
      store = store;
    })

  abbrev pub build_checked : CookieKeyring → Settings → Result Built
  build_checked keyring a =
      if is_positive a.max_session_age
      then build keyring a
      else err (message (lit "the maximum session age must be positive" ∷ []))

  unfoldable pub new_oidc_auth : Option CookieKeyring → List OidcAuthOption → Result Built
  unfolding apply_settings cookie_domain
  new_oidc_auth none opts = err (message (lit "a cookie keyring is required" ∷ []))
  new_oidc_auth (some keyring) opts = build_checked keyring (apply_settings opts default_settings)
