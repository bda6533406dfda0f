-- ===== src/Tests/Rendered.antt =====
-- A page with its menu, and an application with an OIDCAuth that is asked for another language.
use howdah.Base.{
  ◌⊎◌, ℕ, ◌≡◌, List, [], ◌++◌, Bool, true, false, Option, none, some, refl, map, All, AllPairs,
  list_beq, if◌then◌else◌, nat_eq, ◌∷◌,
}
use howdah.Base.Bytes.{Bytes, bytes, has_byte, bytes_eq}
use howdah.Base.Int.{ℤ, pos, int_eq}
use howdah.BasePath.{new_base_path, trim_left, trim_right}
use howdah.BasePath.Local.{IsLocal}
use howdah.BasePath.Location.{
  location, cleaned, clean, cut_query, escape_non_ascii, split_slashes, resolve_dots, join_slashes,
  ends_with_slash,
}
use howdah.Clock.{Time}
use howdah.Errors.{Error, message, lit, Result, ok}
use howdah.Errors.Http.{t_literal}
use howdah.Menu.{MenuItem, no_hooks, alter_all, collect_all}
use howdah.Menu.Order.{IsModest, NotAfter, of_weight}
use howdah.Rendering.{
  AlterContext, AppComponent, add_funcs, default_funcs, PageRequest, PageRenderer, PageContent,
  FuncMap, shown, checks, mark_active, page_menu, render_whole_page,
}
use howdah.Rendering.{render_error_page, log_error, write_header, write, render_whole_page, FuncMap}
use howdah.Rendering.Pages.{IsMarked, page_menu-IsMarked}
use howdah.Auth.{Cookie, OidcAuth, Request}
use howdah.Auth.Login.Landing.{redirects}
use howdah.Auth.Registration.{oidc_component, logout_item, menu_hook}
use howdah.Application.{
  Application, Registered, set_language_route, assets_route, routes_of, observed, DirEntry,
  new_application, set_language, load_locales,
}
use howdah.Auth.Sent.{sent_cookies}
use howdah.Application.Language.{set_language-agrees}
use howdah.Tests.Toy.{toy_keyring}

abbrev item : Bytes → ℕ → MenuItem
item href weight = record {
  title = t_literal href;
  active = false;
  href = href;
  weight = pos weight;
}

abbrev renderer : PageRenderer
renderer = record {
  template_funcs = [];
  menu = item (bytes "/out") 999 ∷ item (bytes "/") 10 ∷ [];
  menu_hooks = no_hooks AlterContext MenuItem;
}

abbrev visit : PageRequest
visit = record {
  url = bytes "/docs/4";
  url_path = bytes "/docs/4";
  accept_language = [];
  cookies = [];
}

abbrev page : PageContent
page = record {
  status = 0;
  template = bytes "doc.html";
  title = t_literal (bytes "Document");
  menu = item (bytes "/docs") 10 ∷ [];
  breadcrumb = record { text = t_literal (bytes "Documents"); href = bytes "/docs" } ∷ [];
  contents = shown 4;
}

-- The item of the breadcrumb is active, behind the one of the same weight.
abbrev seen : MenuItem → Bytes × Bool
seen i = (i.href, i.active)

menu_shown :
    map seen (page_menu renderer visit page)
    ≡ (bytes "/", false) ∷ (bytes "/docs", true) ∷ (bytes "/out", false) ∷ []
unfolding page_menu list_beq alter_all
menu_shown = refl

page_menu-IsMarked_example :
    All (IsMarked (checks visit page)) (page_menu renderer visit page)
    × (renderer.menu_hooks.alter_funcs ≡ []
        → All IsModest (renderer.menu ++ page.menu)
        → AllPairs NotAfter (page_menu renderer visit page)
          × ((w : ℤ)
              → of_weight w (page_menu renderer visit page)
                ≡ map (mark_active (checks visit page)) (of_weight w (renderer.menu ++ page.menu))))
page_menu-IsMarked_example = page_menu-IsMarked renderer visit page

abbrev template_error : Error
template_error = message (lit "template: no such function" ∷ [])

-- The page's template writes a part and fails.
abbrev execute : FuncMap → Bytes → PageContent → List Bytes × Option Error
execute funcs name p =
    if list_beq name (bytes "error.html")
    then (bytes "So" ∷ bytes "rry" ∷ [], none)
    else (bytes "<h1>" ∷ [], some template_error)

-- The error page takes the place of what was written.
error_shown :
    render_whole_page execute renderer 0 visit page
    ≡ log_error template_error ∷ write_header 500 ∷ write (bytes "So") ∷ write (bytes "rry") ∷ []
unfolding render_whole_page render_error_page list_beq
error_shown = refl

abbrev oidc : OidcAuth
oidc = record {
  keyring = toy_keyring;
  base_path = bytes "/app";
  cookie_name = bytes "token";
  insecure = true;
  no_logout_menu_item = false;
  session_domain = bytes "cookie:token";
  redir_domain = bytes "cookie:auth_redir:token";
}

-- A component that gives the mount point.
abbrev mounted_at : Bytes → AppComponent
mounted_at base = record {
  template_funcs = none;
  menu_hook = none;
  base_path = some (new_base_path base);
  insecure_cookies = none;
  observes = true;
}

abbrev loads : Bytes → Option Error
loads name = none

abbrev locales : Result (List DirEntry)
locales = ok (record { name = bytes "locale.sv.toml"; is_dir = false } ∷ [])

abbrev components : List AppComponent
components = mounted_at (bytes "/app/") ∷ oidc_component oidc ∷ []

abbrev rendered : Cookie → Bytes
rendered k = k.name ++ k.value

abbrev add_years : Time → ℤ → Time
add_years now years = now

abbrev asked_for : Request
asked_for = record {
  url = bytes "/set-language";
  query = (bytes "lang", bytes "sv") ∷ (bytes "redirect", bytes "//evil.example") ∷ [];
  cookies = [];
}

abbrev started : Application
started = record {
  render = record {
    template_funcs = default_funcs;
    menu = logout_item oidc ∷ [];
    menu_hooks = menu_hook oidc (no_hooks AlterContext MenuItem);
  };
  components = components;
  base_path = new_base_path (bytes "/app/");
  insecure_cookies = true;
}

abbrev registered : List Registered
registered =
    set_language_route
    ∷ assets_route
    ∷ routes_of (mounted_at (bytes "/app/"))
    ∷ observed (mounted_at (bytes "/app/")) (mounted_at (bytes "/app/"))
    ∷ observed (mounted_at (bytes "/app/")) (oidc_component oidc)
    ∷ routes_of (oidc_component oidc)
    ∷ []

starts : new_application locales loads components none ≡ ok (started, registered)
unfolding new_application load_locales collect_all add_funcs
starts = refl

clean_mount : has_byte (new_base_path (bytes "/app/")) b'\\' ≡ false
unfolding new_base_path trim_left trim_right list_beq has_byte
clean_mount = refl

-- The Location of a target that safeRedirectPath lets through, on an application at the root.
leaves : location (λ url. true) (bytes "/x/../\\evil.example") ≡ bytes "/\\evil.example"
unfolding location cleaned clean cut_query escape_non_ascii list_beq split_slashes resolve_dots
    join_slashes ends_with_slash
leaves = refl

set_language-agrees_example :
    (k : Cookie) × (to : Bytes) × (sent_cookies
        (set_language rendered add_years started 5 asked_for).0
      ≡ k ∷ [])
    × (k.http_only ≡ true)
    × (k.lax ≡ true)
    × (k.path ≡ started.base_path ++ bytes "/")
    × (k.secure ≡ false)
    × (redirects (set_language rendered add_years started 5 asked_for).0 ≡ to ∷ [])
    × IsLocal to
    × ((has_byte to b'\\' ≡ true) ⊎ IsLocal (location (λ url. true) to))
set_language-agrees_example =
    set_language-agrees rendered add_years locales loads (mounted_at (bytes "/app/") ∷ []) [] oidc
      none started registered (bytes "/app/") 5 asked_for (λ url. true) starts tt refl clean_mount
