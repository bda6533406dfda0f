-- ===== src/Tests/Pages.antt =====
-- Redirects and the site check at concrete requests.
use howdah.Base.{[], ◌∷◌, ◌++◌, ◌≡◌, ◌↔◌, refl, true, false, In}
use howdah.Base.Bytes.{Bytes, bytes, has_byte}
use howdah.Errors.{Error, Result, ok}
use howdah.Errors.Http.{as_http_error}
use howdah.BasePath.{new_base_path, trim_left, trim_right, resolve_redirect, safe_redirect_path}
use howdah.BasePath.Local.{IsLocal, resolve_redirect-IsLocal}
use howdah.PageMux.{SiteRequest, Served, serve, set_header, framing_policy, render_error, handle}
use howdah.PageMux.Serving.{Allowed, handle-serves_iff}

mounted : new_base_path (bytes "/app/") ≡ bytes "/app"
unfolding new_base_path trim_left trim_right
mounted = refl

elsewhere : resolve_redirect (bytes "/app") (bytes "//evil.example") ≡ bytes "/app/"
unfolding resolve_redirect safe_redirect_path
elsewhere = refl

no_backslash : has_byte (new_base_path (bytes "/app/")) b'\\' ≡ false
unfolding new_base_path trim_left trim_right has_byte
no_backslash = refl

resolve_redirect-IsLocal_example :
    IsLocal (resolve_redirect (new_base_path (bytes "/app/")) (bytes "//evil"))
    × (IsLocal (bytes "//evil")
        → resolve_redirect (new_base_path (bytes "/app/")) (bytes "//evil")
          ≡ new_base_path (bytes "/app/") ++ bytes "//evil")
    × (¬ IsLocal (bytes "//evil")
        → resolve_redirect (new_base_path (bytes "/app/")) (bytes "//evil")
          ≡ new_base_path (bytes "/app/") ++ bytes "/")
resolve_redirect-IsLocal_example =
    resolve_redirect-IsLocal (bytes "/app/") (bytes "//evil") no_backslash

abbrev parse_host : Bytes → Result Bytes
parse_host origin = ok (bytes "other.example")

abbrev cross_site : SiteRequest
cross_site = record {
  method = bytes "POST";
  sec_fetch_site = bytes "cross-site";
  origin = [];
  host = bytes "app.example";
}

abbrev saves : Served
saves = record { written = bytes "saved" ∷ []; result = ok 1 }

handle-serves_iff_example :
    (In serve (handle parse_host true saves cross_site) ↔ Allowed parse_host cross_site)
    × (¬ Allowed parse_host cross_site
        → (e : Error) × ((as_http_error e).code ≡ 403)
          × (handle parse_host true saves cross_site
              ≡ set_header (bytes "Content-Security-Policy") framing_policy ∷ render_error true e))
handle-serves_iff_example = handle-serves_iff parse_host true saves cross_site
