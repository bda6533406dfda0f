-- ===== src/PageMux.antt =====
-- page_mux.go: the routes that serve pages, and the check of the site that a request came from.
-- A response is the sequence of what is done to it; `url_host` is the Host that url.Parse gives.
pub mod Serving
use howdah.Base.{
  ℕ, List, [], ◌∷◌, ◌++◌, Bool, true, false, ◌||◌, Option, none, some, ◌==◌, nat_eq, if◌then◌else◌,
}
use howdah.Base.Bytes.{Bytes, bytes, bytes_eq}
use howdah.Errors.{Error, message, lit, raw, Result, ok, err, is, skip_render}
use howdah.Errors.Http.{
  HttpError, as_http_error, new_http_error, status_forbidden, status_internal_server_error,
}

-- The parts of a request that the check reads: the method, two headers (empty where they are
-- missing) and the host it was addressed to.
pub record SiteRequest : Type 0 where
  pub method : Bytes
  pub sec_fetch_site : Bytes
  pub origin : Bytes
  pub host : Bytes

abbrev pub is_safe_method : Bytes → Bool
is_safe_method m = m == bytes "GET" || m == bytes "HEAD" || m == bytes "OPTIONS"

abbrev pub cross_site_error : SiteRequest → Error
cross_site_error r =
    new_http_error status_forbidden "CrossSiteRequestBlocked"
      "This request did not come from this site, please try again"
      (message (
        lit "cross-site "
        ∷ raw r.method
        ∷ lit " request refused: Sec-Fetch-Site "
        ∷ raw r.sec_fetch_site
        ∷ lit ", Origin "
        ∷ raw r.origin
        ∷ []))

module _ (url_host : Bytes → Result Bytes) where
  abbrev pub check_origin : SiteRequest → Result Bytes → Result (Unit {0})
  check_origin r (err e) = err (cross_site_error r)
  check_origin r (ok host) = if host == r.host then ok tt else err (cross_site_error r)

  unfoldable pub check_request_site : SiteRequest → Result (Unit {0})
  unfolding new_http_error
  check_request_site r =
      if is_safe_method r.method
      then ok tt
      else if r.sec_fetch_site == bytes "same-origin" || r.sec_fetch_site == bytes "none"
      then ok tt
      else if r.sec_fetch_site == []
      then if r.origin == [] then ok tt else check_origin r (url_host r.origin)
      else err (cross_site_error r)

-- A page is known by a number.
abbrev pub Page : Type 0
Page = ℕ

pub record ErrorInfo : Type 0 where
  pub cause : Error
  pub shown : HttpError

-- What is done to a response, in order. `serve` marks the call of the handler, `wrote` is what the
-- handler writes itself.
pub data Event : Type 0 where
  set_header : Bytes → Bytes → Event
  serve : Event
  wrote : Bytes → Event
  plain_error : ℕ → Event
  error_page : ErrorInfo → Event
  render_page : Page → Event

-- What a handler writes, and the page or the error that it returns.
pub record Served : Type 0 where
  pub written : List Bytes
  pub result : Result Page

abbrev pub framing_policy : Bytes
framing_policy = bytes "frame-ancestors 'none'"

-- Whether the mux has a renderer.
unfoldable pub render_error : Bool → Error → List Event
unfolding as_http_error
render_error true e = error_page (record { cause = e; shown = as_http_error e }) ∷ []
render_error false e = plain_error (as_http_error e).code ∷ []

abbrev pub writes : List Bytes → List Event
writes [] = []
writes (text ∷ texts) = wrote text ∷ writes texts

abbrev pub finish : Bool → Result Page → List Event
finish renderer (err e) = if is e skip_render then [] else render_error renderer e
finish true (ok page) = render_page page ∷ []
finish false (ok page) = plain_error status_internal_server_error ∷ []

module _ (url_host : Bytes → Result Bytes) (renderer : Bool) where
  abbrev pub checked : Served → Result (Unit {0}) → List Event
  checked handler (err e) = render_error renderer e
  checked handler (ok t) = serve ∷ (writes handler.written ++ finish renderer handler.result)

  unfoldable pub handle : Served → SiteRequest → List Event
  unfolding check_request_site render_error is
  handle handler r =
      set_header (bytes "Content-Security-Policy") framing_policy
      ∷ checked handler (check_request_site url_host r)
