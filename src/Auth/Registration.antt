-- ===== src/Auth/Registration.antt =====
-- What an OIDCAuth gives the application that it is a component of.
use howdah.Base.{List, [], ◌∷◌, Bool, true, false, none, some}
use howdah.Base.Bytes.{Bytes, bytes}
use howdah.Base.Int.{pos}
use howdah.BasePath.{path}
use howdah.Errors.Http.{tl}
use howdah.Menu.{MenuItem, register_hook}
use howdah.Rendering.{AlterContext, MenuHooks, AppComponent}
use howdah.Auth.{OidcAuth}

-- The handlers of the pages under /auth.
pub data Handler : Type 0 where
  login_handler redirect_handler logout_handler callback_handler : Handler

abbrev pub register_routes : List (Bytes × Handler)
register_routes =
    (bytes "GET /auth/login", login_handler)
    ∷ (bytes "POST /auth/login", redirect_handler)
    ∷ (bytes "GET /auth/logout", logout_handler)
    ∷ (bytes "GET /auth/callback", callback_handler)
    ∷ []

abbrev pub logout_item : OidcAuth → MenuItem
logout_item a = record {
  title = tl "LogOut" ("Log out" ∷ []);
  active = false;
  href = path a.base_path (bytes "/auth/logout");
  weight = pos 999;
}

abbrev pub hook_unless : OidcAuth → Bool → MenuHooks → MenuHooks
hook_unless a true hooks = hooks
hook_unless a false hooks = register_hook AlterContext MenuItem (λ u. logout_item a ∷ []) hooks

abbrev pub menu_hook : OidcAuth → MenuHooks → MenuHooks
menu_hook a hooks = hook_unless a a.no_logout_menu_item hooks

abbrev pub insecure_cookies : OidcAuth → Bool
insecure_cookies a = a.insecure

-- An OIDCAuth as a component: it has a menu hook and a cookie security, and is no other interface.
abbrev pub oidc_component : OidcAuth → AppComponent
oidc_component a = record {
  template_funcs = none;
  menu_hook = some (menu_hook a);
  base_path = none;
  insecure_cookies = some (insecure_cookies a);
  observes = false;
}
