-- ===== src/PageMux/Serving.antt =====
-- Which requests reach a handler, and what the others are answered.
use howdah.Base.{
  [], ◌∷◌, ◌≡◌, ◌⊎◌, ◌↔◌, inl, inr, refl, Bool, true, false, arith, ◌==◌, nat_eq, Bool-cases, In,
  ==_iff, subst,
}
use howdah.Base.Bytes.{Bytes, bytes, bytes_eq}
use howdah.Errors.{Error, Result, ok, err, Result-cases}
use howdah.Errors.Http.{as_http_error, find_http, new_http_error}
use howdah.PageMux.{
  SiteRequest, is_safe_method, cross_site_error, check_request_site, set_header, serve, Served,
  framing_policy, render_error, checked, handle,
}

module _ (url_host : Bytes → Result Bytes) (r : SiteRequest) where
  abbrev pub IsSafe : Type 0
  IsSafe = (r.method ≡ bytes "GET") ⊎ ((r.method ≡ bytes "HEAD") ⊎ (r.method ≡ bytes "OPTIONS"))

  -- Why a request may change the state: it is of a method that changes none, the browser says that
  -- it is our own page's or the visitor's own, it has an origin that is our host, or it is not a
  -- browser's.
  pub data Allowed : Type 0 where
    safe : IsSafe → Allowed
    own_page : r.sec_fetch_site ≡ bytes "same-origin" → Allowed
    visitor : r.sec_fetch_site ≡ bytes "none" → Allowed
    no_browser : r.sec_fetch_site ≡ [] → r.origin ≡ [] → Allowed
    own_origin : r.sec_fetch_site ≡ [] → url_host r.origin ≡ ok r.host → Allowed

  is_safe_method_iff : (is_safe_method r.method ≡ true) ↔ IsSafe
  is_safe_method_iff = ground (
    arith,
    ==_iff r.method (bytes "GET"),
    ==_iff r.method (bytes "HEAD"),
    ==_iff r.method (bytes "OPTIONS"),
  )

  Allowed-accepted : Allowed → check_request_site url_host r ≡ ok tt
  unfolding check_request_site
  Allowed-accepted (safe m) = rw (is_safe_method_iff.1 m) refl
  Allowed-accepted (own_page e) = ground (arith, ==_iff r.sec_fetch_site (bytes "same-origin"))
  Allowed-accepted (visitor e) = ground (arith, ==_iff r.sec_fetch_site (bytes "none"))
  Allowed-accepted (no_browser e f) = ground (arith, ==_iff r.sec_fetch_site [], ==_iff r.origin [])
  Allowed-accepted (own_origin e f) =
      ground (arith, ==_iff r.sec_fetch_site [], ==_iff r.origin [], ==_iff r.host r.host)

  -- The request is let through exactly when it is allowed.
  Outcome : Type 0
  Outcome =
      (Allowed × (check_request_site url_host r ≡ ok tt))
      ⊎ ((¬ Allowed) × (check_request_site url_host r ≡ err (cross_site_error r)))

  refused_only : check_request_site url_host r ≡ err (cross_site_error r) → Outcome
  unfolding Outcome
  refused_only h = inr (λ a. cc (Allowed-accepted a, h), h)

  origin_outcome :
      is_safe_method r.method ≡ false
      → (r.sec_fetch_site == bytes "same-origin") ≡ false
      → (r.sec_fetch_site == bytes "none") ≡ false
      → r.sec_fetch_site ≡ []
      → Outcome
  unfolding Outcome check_request_site
  origin_outcome unsafe not_own not_typed silent = elim (Bool-cases (r.origin == [])) [
    | inl none ↦
        let a = no_browser silent ((==_iff r.origin []).0 none) in inl (a, Allowed-accepted a)
    | inr some ↦ elim (Result-cases (url_host r.origin)) [
      | inr (e, failed) ↦ refused_only (ground (arith, ==_iff r.sec_fetch_site []))
      | inl (host, parsed) ↦ elim (Bool-cases (host == r.host)) [
        | inl same ↦
            let a = own_origin silent (ground (arith, ==_iff host r.host)) in
            inl (a, Allowed-accepted a)
        | inr other ↦ refused_only (ground (arith, ==_iff r.sec_fetch_site []))
      ]
    ]
  ]

  outcome : Outcome
  unfolding Outcome check_request_site
  outcome = elim (Bool-cases (is_safe_method r.method)) [
    | inl m ↦ let a = safe (is_safe_method_iff.0 m) in inl (a, Allowed-accepted a)
    | inr unsafe ↦ elim (Bool-cases (r.sec_fetch_site == bytes "same-origin")) [
      | inl own ↦
          let a = own_page ((==_iff r.sec_fetch_site (bytes "same-origin")).0 own) in
          inl (a, Allowed-accepted a)
      | inr not_own ↦ elim (Bool-cases (r.sec_fetch_site == bytes "none")) [
        | inl typed ↦
            let a = visitor ((==_iff r.sec_fetch_site (bytes "none")).0 typed) in
            inl (a, Allowed-accepted a)
        | inr not_typed ↦ elim (Bool-cases (r.sec_fetch_site == [])) [
          | inl silent ↦
              origin_outcome unsafe not_own not_typed ((==_iff r.sec_fetch_site []).0 silent)
          | inr said ↦ refused_only (rw (unsafe, not_own, not_typed, said) refl)
        ]
      ]
    ]
  ]

  -- A request passes the check exactly when it is allowed, and one that does not is refused with the
  -- HTTP status 403.
  pub check_request_site_iff :
      ((check_request_site url_host r ≡ ok tt) ↔ Allowed)
      × ((e : Error) → check_request_site url_host r ≡ err e → (as_http_error e).code ≡ 403)
  unfolding Outcome as_http_error find_http new_http_error
  check_request_site_iff = elim outcome [
    | inl (a, h) ↦ ((λ _. a, λ _. h), λ e f. cc)
    | inr (n, h) ↦ ((λ f. cc, λ a. absurd (n a)), λ e f. ground arith)
  ]

no_serve_error : (renderer : Bool) (e : Error) → ¬ In serve (render_error renderer e)
unfolding render_error
no_serve_error true e (inl h) = cc
no_serve_error false e (inl h) = cc
no_serve_error true e (inr h) = elim h [ ]
no_serve_error false e (inr h) = elim h [ ]

-- A handler is called exactly for the requests that are allowed; for any other the response is an
-- error with status 403 and nothing that depends on the handler.
pub handle-serves_iff :
    (url_host : Bytes → Result Bytes) (renderer : Bool) (handler : Served) (r : SiteRequest)
    → (In serve (handle url_host renderer handler r) ↔ Allowed url_host r)
      × (¬ Allowed url_host r
          → (e : Error) × ((as_http_error e).code ≡ 403)
            × (handle url_host renderer handler r
                ≡ set_header (bytes "Content-Security-Policy") framing_policy
                  ∷ render_error renderer e))
unfolding Outcome
handle-serves_iff url_host renderer handler r =
    let does : handle url_host renderer handler r
        ≡ set_header (bytes "Content-Security-Policy") framing_policy
          ∷ checked url_host renderer handler (check_request_site url_host r) =
      unfold handle in refl in
    elim (outcome url_host r) [
      | inl (a, h) ↦ ((λ _. a, λ _. rw (does, h) (inr (inl refl))), λ n. absurd (n a))
      | inr (n, h) ↦
          let answered : handle url_host renderer handler r
              ≡ set_header (bytes "Content-Security-Policy") framing_policy
                ∷ render_error renderer (cross_site_error r) =
            rw (does, h) refl in
          (
            (
              λ i. elim (subst (In serve) answered i) [
                | inl e ↦ cc
                | inr i ↦ absurd (no_serve_error renderer (cross_site_error r) i)
              ],
              λ a. absurd (n a),
            ),
            λ _. (
              cross_site_error r,
              (check_request_site_iff url_host r).1 (cross_site_error r) h,
              answered,
            ),
          )
    ]
