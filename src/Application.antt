-- ===== src/Application.antt =====
-- application.go: the application, its start and its set-language page. `add_years` is AddDate with a
-- number of years. Locales, templates and assets are files, known by what reading them gives.
pub mod Language
use howdah.Base.{
  ℕ, List, [], ◌∷◌, ◌++◌, Bool, true, false, ◌&&◌, ◌||◌, not, Option, none, some, ◌==◌, nat_eq,
  if◌then◌else◌,
}
use howdah.Base.Bytes.{Bytes, bytes, bytes_eq, has_prefix}
use howdah.Base.Dict.{lookup}
use howdah.Base.Int.{ℤ, pos, negsuc}
use howdah.BasePath.{BasePath, path, resolve_redirect}
use howdah.Clock.{Time}
use howdah.Errors.{Error, raw, lit, wrap, sentinel, skip_render, Result, ok, err, wrapped, ◌>>=◌}
use howdah.Menu.{MenuItem}
use howdah.Rendering.{AppComponent, PageRenderer, new_page_renderer}
use howdah.Auth.{Cookie, Effect, redirected, Request, or_empty, Step, plain, set_cookie}

pub record Application : Type 0 where
  pub render : PageRenderer
  pub components : List AppComponent
  pub base_path : BasePath
  pub insecure_cookies : Bool

-- An entry of the directory of locales.
pub record DirEntry : Type 0 where
  pub name : Bytes
  pub is_dir : Bool

-- What is done to the muxes, in order: the component is known by its place.
pub data Registered : Type 0 where
  set_language_route assets_route : Registered
  routes_of : AppComponent → Registered
  observed : AppComponent → AppComponent → Registered

-- `load` is LoadMessageFileFS, of which the error counts.
module _ (load : Bytes → Option Error) where
  abbrev pub loaded : Bytes → Option Error → Result (Unit {0})
  loaded name none = ok tt
  loaded name (some e) = err (wrap (lit "load locale " ∷ raw name ∷ []) e)

  abbrev pub is_locale : DirEntry → Bool
  unfolding has_prefix
  is_locale f = not f.is_dir && has_prefix f.name (bytes "locale.")

  unfoldable pub load_locales : List DirEntry → Result (Unit {0})
  unfolding has_prefix
  load_locales [] = ok tt
  load_locales (f ∷ fs) =
      let rest = load_locales fs in
      if is_locale f then (loaded f.name (load f.name) >>= λ u. rest) else rest

abbrev pub or_kept {ℓ} : {A : Type ℓ} → Option A → A → A
or_kept none kept = kept
or_kept (some given) kept = given

-- The last component that has a base path, or a cookie security, gives it.
unfoldable pub last_base_path : List AppComponent → BasePath → BasePath
last_base_path [] bp = bp
last_base_path (c ∷ components) bp = last_base_path components (or_kept c.base_path bp)

unfoldable pub last_insecure : List AppComponent → Bool → Bool
last_insecure [] insecure = insecure
last_insecure (c ∷ components) insecure =
    last_insecure components (or_kept c.insecure_cookies insecure)

unfoldable pub observed_all : AppComponent → List AppComponent → List Registered
observed_all o [] = []
observed_all o (oc ∷ components) = observed o oc ∷ observed_all o components

abbrev pub observations : AppComponent → List AppComponent → List Registered
unfolding observed_all
observations c components = if c.observes then observed_all c components else []

unfoldable pub register_all : List AppComponent → List AppComponent → List Registered
unfolding observed_all
register_all components [] = []
register_all components (c ∷ rest) =
    routes_of c ∷ (observations c components ++ register_all components rest)

unfoldable pub new_application :
    Result (List DirEntry)
    → (Bytes → Option Error)
    → List AppComponent
    → Option Error
    → Result (Application × List Registered)
unfolding load_locales new_page_renderer last_base_path last_insecure register_all
new_application dir load components parse_error = do
  ld ← wrapped (lit "list locales" ∷ []) dir
  u ← load_locales load ld
  renderer ← wrapped (lit "create page renderer" ∷ []) (new_page_renderer components parse_error)
  ok (
    record {
      render = renderer;
      components = components;
      base_path = last_base_path components [];
      insecure_cookies = last_insecure components false;
    },
    set_language_route ∷ assets_route ∷ register_all components components,
  )

abbrev pub get_menu : Application → List MenuItem
get_menu a = []

abbrev pub status_temporary_redirect : ℕ
status_temporary_redirect = 307

abbrev pub query_value : Request → Bytes → Bytes
unfolding lookup
query_value r name = or_empty (lookup name r.query)

module _ (rendered : Cookie → Bytes) (add_years : Time → ℤ → Time) where
  abbrev pub lang_cookie : Application → Time → Bytes → Cookie
  lang_cookie a now lang =
      if lang == []
      then plain (bytes "lang") (bytes "en") (path a.base_path (bytes "/"))
          (some (add_years now (negsuc 0))) (pos 0)
      else plain (bytes "lang") lang (path a.base_path (bytes "/")) (some (add_years now (pos 1)))
          (pos 0)

  unfoldable pub set_language : Application → Time → Request → Step (Unit {0})
  unfolding set_cookie lookup resolve_redirect
  set_language a now r = (
    set_cookie rendered (lang_cookie a now (query_value r (bytes "lang"))) a.insecure_cookies
        ++ (redirected status_temporary_redirect
              (resolve_redirect a.base_path (query_value r (bytes "redirect")))
            ∷ []),
    err (sentinel skip_render),
  )
