-- ===== src/Application/Language.antt =====
-- The set-language page of an application that has an OIDCAuth.
use howdah.Base.{
  ◌⊎◌, ◌≡◌, List, [], ◌∷◌, ◌++◌, Bool, true, false, not, Option, none, refl, arith, All, nat_eq,
  ◌∙◌, ap,
}
use howdah.Base.Bytes.{Bytes, bytes, bytes_eq, has_byte}
use howdah.Base.Int.{ℤ}
use howdah.BasePath.{new_base_path, resolve_redirect}
use howdah.BasePath.Local.{IsLocal, resolve_redirect-IsLocal}
use howdah.BasePath.Location.{location}
use howdah.BasePath.Cleaning.{location-IsLocal}
use howdah.Clock.{Time}
use howdah.Errors.{Error, Result, ok, wrapped, lit, >>=-eq-ok}
use howdah.Rendering.{AppComponent, new_page_renderer}
use howdah.Auth.{Cookie, redirected, OidcAuth, Request}
use howdah.Auth.Sent.{sent_cookies, set_cookie-sent}
use howdah.Auth.Login.Landing.{redirects}
use howdah.Auth.Registration.{oidc_component}
use howdah.Application.{
  Application, Registered, DirEntry, load_locales, last_insecure, or_kept, new_application,
  set_language, query_value, lang_cookie,
}

last_insecure-none :
    (back : List AppComponent) (insecure : Bool)
    → All (λ c. c.insecure_cookies ≡ none) back
    → last_insecure back insecure ≡ insecure
unfolding last_insecure
last_insecure-none [] insecure h = refl
last_insecure-none (c ∷ back) insecure (n, h) =
    ap (λ o. last_insecure back (or_kept o insecure)) n ∙ last_insecure-none back insecure h

last_insecure-oidc :
    (front back : List AppComponent) (auth : OidcAuth) (insecure : Bool)
    → All (λ c. c.insecure_cookies ≡ none) back
    → last_insecure (front ++ oidc_component auth ∷ back) insecure ≡ auth.insecure
unfolding last_insecure
last_insecure-oidc [] back auth insecure h = last_insecure-none back auth.insecure h
last_insecure-oidc (c ∷ front) back auth insecure h =
    last_insecure-oidc front back auth (or_kept c.insecure_cookies insecure) h

new_application-insecure :
    (dir : Result (List DirEntry)) (load : Bytes → Option Error) (components : List AppComponent)
    (parse_error : Option Error) (app : Application) (regs : List Registered)
    → new_application dir load components parse_error ≡ ok (app, regs)
    → app.insecure_cookies ≡ last_insecure components false
unfolding new_application
new_application-insecure dir load components parse_error app regs h =
    let (ld, _, h1) = >>=-eq-ok (wrapped (lit "list locales" ∷ []) dir) _ h in
    let (u, _, h2) = >>=-eq-ok (load_locales load ld) _ h1 in
    let (renderer, _, h3) =
      >>=-eq-ok
        (wrapped (lit "create page renderer" ∷ []) (new_page_renderer components parse_error)) _
        h2 in
    ground (arith, h3)

module _ (rendered : Cookie → Bytes) (add_years : Time → ℤ → Time) where
  -- An application that is started with an OIDCAuth among its components, and after it none with a
  -- cookie security of its own: its set-language page sends one cookie, which is HttpOnly and SameSite
  -- Lax, is for the root of the mount point, and is Secure unless the OIDCAuth has insecure cookies. It
  -- redirects once, whatever the visitor asked for: http.Redirect is given a local path, and the
  -- Location that it writes for it is one too, unless there is a backslash in it. (The application's
  -- mount point is a base path without a backslash.)
  pub set_language-agrees :
      (dir : Result (List DirEntry)) (load : Bytes → Option Error) (front back : List AppComponent)
      (auth : OidcAuth) (parse_error : Option Error) (app : Application) (regs : List Registered)
      (base : Bytes) (now : Time) (r : Request) (parses : Bytes → Bool)
      → new_application dir load (front ++ oidc_component auth ∷ back) parse_error ≡ ok (app, regs)
      → All (λ c. c.insecure_cookies ≡ none) back
      → app.base_path ≡ new_base_path base
      → has_byte (new_base_path base) b'\\' ≡ false
      → (k : Cookie) × (to : Bytes) × (sent_cookies (set_language rendered add_years app now r).0
          ≡ k ∷ [])
        × (k.http_only ≡ true)
        × (k.lax ≡ true)
        × (k.path ≡ app.base_path ++ bytes "/")
        × (k.secure ≡ not auth.insecure)
        × (redirects (set_language rendered add_years app now r).0 ≡ to ∷ [])
        × IsLocal to
        × ((has_byte to b'\\' ≡ true) ⊎ IsLocal (location parses to))
  unfolding set_language
  set_language-agrees dir load front back auth parse_error app regs base now r parses h none_after
        mounted clean =
      let k = lang_cookie rendered add_years app now (query_value r (bytes "lang")) in
      let agrees =
        new_application-insecure dir load (front ++ oidc_component auth ∷ back) parse_error app regs
          h
        ∙ last_insecure-oidc front back auth false none_after in
      let to = resolve_redirect app.base_path (query_value r (bytes "redirect")) in
      let local : IsLocal to =
        rw mounted (resolve_redirect-IsLocal base (query_value r (bytes "redirect")) clean).0 in
      let (cookies, goes) =
        set_cookie-sent rendered k app.insecure_cookies (redirected 307 to ∷ []) in
      (
        record k { http_only = true; lax = true; secure = not app.insecure_cookies },
        to,
        cookies,
        refl,
        refl,
        ground arith,
        ap not agrees,
        goes,
        local,
        location-IsLocal parses to local,
      )
