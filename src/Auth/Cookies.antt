-- ===== src/Auth/Cookies.antt =====
-- When a session cookie fits in a browser, and when it is cleared.
use howdah.Base.{
  not, length, ◌≤◌, ◌+◌, ◌≡◌, ◌≢◌, ◌↔◌, List, [], ◌∷◌, Bool, true, false, ◌&&◌, ◌||◌, Option, none,
  some, refl, arith, Bool-cases, Option-cases, inl, inr, ◌==◌, ==_iff, nat_eq,
}
use howdah.Base.Bytes.{Bytes, bytes, bytes_eq}
use howdah.Base.Dict.{lookup}
use howdah.Base.Int.{pos, int_ltb}
use howdah.Clock.{Time}
use howdah.BasePath.{path}
use howdah.Errors.{Error, Result, ok, err}
use howdah.Session.{StoredToken}
use howdah.Auth.{
  Cookie, Effect, sent, too_large, logged, asked, redirected, replied, OidcAuth, session_gone,
  set_cookie, clear_token_cookie, reject_token_cookie, read_token_cookie, from_cookie,
  cookie_attribute_budget, plain, set_token_cookie, resolve_handle, require_token, no_token,
}

-- The effects tell the browser to drop the cookie of this name.
abbrev pub clears : Bytes → List Effect → Bool
clears name [] = false
clears name (sent c ∷ effects) =
    (c.name == name && int_ltb c.max_age (pos 0)) || clears name effects
clears name (too_large n ∷ effects) = clears name effects
clears name (logged level e ∷ effects) = clears name effects
clears name (asked call ∷ effects) = clears name effects
clears name (redirected code to ∷ effects) = clears name effects
clears name (replied code text ∷ effects) = clears name effects

module _ (rendered : Cookie → Bytes) (a : OidcAuth) (now : Time) where
  clear-clears : clears a.cookie_name (clear_token_cookie rendered a now) ≡ true
  unfolding clear_token_cookie set_cookie
  clear-clears = ground (arith, ==_iff a.cookie_name a.cookie_name)

  reject-clears :
      (e : Error) → clears a.cookie_name (reject_token_cookie rendered a now e) ≡ session_gone e
  unfolding reject_token_cookie
  reject-clears e = elim (Bool-cases (session_gone e)) [
    | inl over ↦ rw over clear-clears
    | inr kept ↦ rw kept refl
  ]

  module _ (store_get : Bytes → Result StoredToken) (cookies : List (Bytes × Bytes)) where
    -- What is to hold of the effects and the result of a read.
    abbrev pub Answered : List Effect → Result StoredToken → Type 0
    Answered effects result =
        ((e : Error)
          → result ≡ err e
          → (clears a.cookie_name effects ≡ true)
            ↔ ((lookup a.cookie_name cookies ≢ none) × (session_gone e ≡ true)))
        × ((session : StoredToken) → result ≡ ok session → (effects ≡ []) × (session.token ≢ none))

    rejected :
        (e : Error)
        → lookup a.cookie_name cookies ≢ none
        → Answered (reject_token_cookie rendered a now e) (err e)
    rejected e there = (
      λ f h.
          let same : e ≡ f = ground (arith, h) in
          (
            λ cleared. (there, cc (reject-clears e, cleared, same)),
            λ (_, over). cc (reject-clears e, over, same),
          ),
      λ session h. cc,
    )

    require_token-Answered :
        (session : StoredToken)
        → lookup a.cookie_name cookies ≢ none
        → Answered
            (require_token rendered store_get a now session session.token).0
            (require_token rendered store_get a now session session.token).1
    require_token-Answered session there = elim (Option-cases session.token) [
      | inl nothing ↦ rw nothing (rejected (no_token rendered store_get) there)
      | inr (tok, has) ↦ rw has (λ e h. cc, λ found h. (refl, λ e. cc (h, e)))
    ]

    resolve_handle-Answered :
        (r : Result StoredToken)
        → lookup a.cookie_name cookies ≢ none
        → Answered
            (resolve_handle rendered store_get a now r).0
            (resolve_handle rendered store_get a now r).1
    resolve_handle-Answered (err e) there = rejected e there
    resolve_handle-Answered (ok session) there = require_token-Answered session there

    from_cookie-Answered :
        (value : Option Bytes)
        → lookup a.cookie_name cookies ≡ value
        → Answered
            (from_cookie rendered store_get a now value).0
            (from_cookie rendered store_get a now value).1
    from_cookie-Answered none missing =
        (λ e h. (λ cleared. cc, λ (there, over). absurd (there missing)), λ session h. cc)
    from_cookie-Answered (some value) found =
        resolve_handle-Answered (store_get value) (λ e. cc (found, e))

    read_token_cookie-Answered :
        Answered
          (read_token_cookie rendered store_get a now cookies).0
          (read_token_cookie rendered store_get a now cookies).1
    unfolding read_token_cookie
    read_token_cookie-Answered = from_cookie-Answered (lookup a.cookie_name cookies) refl

    -- A read of the session cookie that fails has the browser drop the cookie exactly when the request
    -- has one and the failure says that the session is over. A store that could not answer leaves it.
    pub read_token_cookie-clears :
        (e : Error)
        → (read_token_cookie rendered store_get a now cookies).1 ≡ err e
        → (clears a.cookie_name (read_token_cookie rendered store_get a now cookies).0 ≡ true)
          ↔ ((lookup a.cookie_name cookies ≢ none) × (session_gone e ≡ true))
    read_token_cookie-clears = read_token_cookie-Answered.0

    -- A read of the session cookie that gives a session leaves the response as it is, and the session
    -- has a token, whatever the store returned.
    pub read_token_cookie-has_token :
        (session : StoredToken)
        → (read_token_cookie rendered store_get a now cookies).1 ≡ ok session
        → ((read_token_cookie rendered store_get a now cookies).0 ≡ []) × (session.token ≢ none)
    read_token_cookie-has_token = read_token_cookie-Answered.1

module _ (rendered : Cookie → Bytes) (a : OidcAuth) where
  -- Where net/http writes the attributes of a cookie for the mount point within the budget, a session
  -- cookie that is set at all fits in a browser: it is sent without the warning of its size. It carries
  -- the handle until the session's expiry, out of reach of scripts and of plain HTTP unless the
  -- application asked for insecure cookies.
  pub set_token_cookie-fits :
      (session : StoredToken) (effects : List Effect)
      → ((c : Cookie)
          → c.path ≡ path a.base_path (bytes "/")
          → length (rendered c) ≤ length c.value + length c.name + cookie_attribute_budget)
      → set_token_cookie rendered a session ≡ ok effects
      → (c : Cookie) × (effects ≡ sent c ∷ [])
        × (c.value ≡ session.handle)
        × (c.expires ≡ some session.expires_at)
        × (c.http_only ≡ true)
        × (c.secure ≡ not a.insecure)
  unfolding set_token_cookie set_cookie
  set_token_cookie-fits session effects budget h =
      let c =
        record (plain a.cookie_name session.handle (path a.base_path (bytes "/"))
          (some session.expires_at) (pos 0)) {
            http_only = true;
            lax = true;
            secure = not a.insecure;
          } in
      let within = budget c refl in (c, ground (arith, h, within), refl, refl, refl, refl)
