-- ===== src/Auth/Login/Landing.antt =====
-- Where the login callback sends the browser.
use howdah.Base.{
  String, ◌≡◌, ◌≢◌, List, [], ◌∷◌, ◌++◌, append_assoc, Bool, true, false, Option, none, some, refl,
  ◌∙◌, arith, Bool-cases, Option-cases, inl, inr, ◌⊎◌, All, All-append, ◌==◌, ==_iff, nat_eq, subst,
}
use howdah.Base.Bytes.{Bytes, bytes, bytes_eq, has_byte}
use howdah.Base.Dict.{lookup}
use howdah.BasePath.{new_base_path, resolve_redirect}
use howdah.BasePath.Local.{IsLocal, resolve_redirect-IsLocal}
use howdah.BasePath.Location.{location}
use howdah.BasePath.Cleaning.{location-IsLocal}
use howdah.Clock.{Time}
use howdah.Crypto.{Crypto}
use howdah.Envelope.{open_value}
use howdah.Errors.{
  Error, Result, ok, err, wrapped, lit, message, sentinel, skip_render, Result-cases,
}
use howdah.Errors.Http.{as_http_error, literal_http_error}
use howdah.Session.{OauthToken, StoredToken, TokenStore}
use howdah.Auth.{
  Cookie, Effect, sent, too_large, logged, asked, redirected, replied, OidcAuth, Request, or_empty,
  Step, handle, set_cookie, set_token_cookie,
}
use howdah.Auth.Contexts.{IdToken}
use howdah.Auth.Guard.{status_found}
use howdah.Auth.Guard.Silence.{Silent, set_token_cookie-Silent}
use howdah.Auth.Login.{
  query_get, assume_token_expiry, lifted, refuse_unless, clear_callback_cookie, fail_login,
  failed_url, redir_value, read_auth_redir_cookie, auth_redir_cookie_name, raw_id_token,
  run_callback, create_step, cookie_set, sign_in, clear_callback_cookies, attempt, denied,
  auth_callback,
}

-- What http.Redirect is given for each redirect of the effects.
abbrev pub redirects : List Effect → List Bytes
redirects [] = []
redirects (redirected code to ∷ effects) = to ∷ redirects effects
redirects (replied code text ∷ effects) = redirects effects
redirects (asked call ∷ effects) = redirects effects
redirects (sent c ∷ effects) = redirects effects
redirects (too_large n ∷ effects) = redirects effects
redirects (logged level e ∷ effects) = redirects effects

pub redirects-append-Silent :
    (front back : List Effect) → All Silent front → redirects (front ++ back) ≡ redirects back
redirects-append-Silent [] back h = refl
redirects-append-Silent (redirected code to ∷ front) back (h, hs) = absurd h
redirects-append-Silent (replied code text ∷ front) back (h, hs) = absurd h
redirects-append-Silent (asked call ∷ front) back (h, hs) = redirects-append-Silent front back hs
redirects-append-Silent (sent c ∷ front) back (h, hs) = redirects-append-Silent front back hs
redirects-append-Silent (too_large n ∷ front) back (h, hs) = redirects-append-Silent front back hs
redirects-append-Silent (logged level e ∷ front) back (h, hs) =
    redirects-append-Silent front back hs

handle-Silent {ℓ κ} :
    {A : Type ℓ} {B : Type κ} (s : Step A) (failed : Error → Step B) (next : A → Step B)
    → All Silent s.0
    → ((e : Error) → All Silent (failed e).0)
    → ((x : A) → All Silent (next x).0)
    → All Silent (handle s failed next).0
handle-Silent (effects, err e) failed next h f n = All-append Silent effects _ h (f e)
handle-Silent (effects, ok x) failed next h f n = All-append Silent effects _ h (n x)

refuse_unless-Silent : (b : Bool) (text : String) → All Silent (refuse_unless b text).0
refuse_unless-Silent true text = tt
refuse_unless-Silent false text = tt

module _ (rendered : Cookie → Bytes) (a : OidcAuth) (store : TokenStore) (now : Time) (c : Crypto)
    (exchange_code : Bytes → Result OauthToken) (verify : Bytes → Result IdToken)
    (on_login : Option (IdToken → Result (Unit {0}))) where
  assume-Silent : (tok : OauthToken) → All Silent (assume_token_expiry now tok).0
  unfolding assume_token_expiry
  assume-Silent tok = ground arith

  run_callback-Silent :
      (callback : Option (IdToken → Result (Unit {0}))) (id : IdToken)
      → All Silent (run_callback rendered a store now c exchange_code verify on_login callback id).0
  run_callback-Silent none id = tt
  run_callback-Silent (some callback) id = tt

  raw_id_token-Silent :
      (given : Option Bytes)
      → All Silent (raw_id_token rendered a store now c exchange_code verify on_login given).0
  raw_id_token-Silent none = tt
  raw_id_token-Silent (some given) = tt

  cookie_set-Silent :
      (session : StoredToken)
      → All Silent (cookie_set rendered a store now c exchange_code verify on_login session).0
  cookie_set-Silent session = elim (Result-cases (set_token_cookie rendered a session)) [
    | inl (effects, e) ↦ rw e (set_token_cookie-Silent rendered a session effects e)
    | inr (e, failed) ↦ rw failed tt
  ]

  pub sign_in-Silent :
      (r : Request) (state nonce : Bytes)
      → All Silent (sign_in rendered a store now c exchange_code verify on_login r state nonce).0
  unfolding sign_in
  sign_in-Silent r state nonce =
      handle-Silent (refuse_unless (query_get r (bytes "state") == state) "state did not match") _ _
        (refuse_unless-Silent _ _) (λ e. tt)
        λ u.
          handle-Silent
            (lifted (
              wrapped (lit "exchange the authorization code" ∷ [])
                (exchange_code (query_get r (bytes "code")))))
            _ _ tt (λ e. tt)
            λ tok.
              handle-Silent
                (raw_id_token rendered a store now c exchange_code verify on_login tok.id_token) _ _
                (raw_id_token-Silent tok.id_token) (λ e. tt)
                λ raw_token.
                  handle-Silent
                    (lifted (wrapped (lit "verify the ID token" ∷ []) (verify raw_token))) _ _ tt
                    (λ e. tt)
                    λ id.
                      handle-Silent (refuse_unless (id.nonce == nonce) "nonce did not match") _ _
                        (refuse_unless-Silent _ _) (λ e. tt)
                        λ u.
                          handle-Silent
                            (run_callback rendered a store now c exchange_code verify on_login
                              on_login id)
                            _ _ (run_callback-Silent on_login id) (λ e. tt)
                            λ u.
                              All-append Silent (assume_token_expiry now tok).0 _
                                (assume-Silent tok)
                                (handle-Silent
                                  (create_step rendered a store now c exchange_code verify on_login
                                    _)
                                  _ _ (tt, tt) (λ e. tt) cookie_set-Silent)

  redir_value-Silent : (value : Option Bytes) → All Silent (redir_value rendered a c now value).0
  redir_value-Silent none = tt
  redir_value-Silent (some value) =
      elim (Result-cases (open_value c (some a.keyring) now a.redir_domain value)) [
        | inl (opened, e) ↦ rw e tt
        | inr (e, failed) ↦ rw failed (tt, tt)
      ]

  clear_callback-Silent : (name : Bytes) → All Silent (clear_callback_cookie rendered a now name)
  unfolding clear_callback_cookie set_cookie
  clear_callback-Silent name = ground arith

  -- Before the attempt is tried the redirect cookie is read, and the callback cookies are cleared.
  pub attempt_start-Silent :
      (r : Request)
      → All Silent (
          (read_auth_redir_cookie rendered a c now r).0
          ++ clear_callback_cookies rendered a store now c exchange_code verify on_login)
  unfolding read_auth_redir_cookie
  attempt_start-Silent r = All-append Silent _ _ (redir_value-Silent _) (
      All-append Silent _ _ (clear_callback-Silent (bytes "state")) (
        All-append Silent _ _ (clear_callback-Silent (bytes "nonce"))
          (clear_callback-Silent auth_redir_cookie_name)))

  -- What the browser is told: to go to one address. What http.Redirect is given is a local path, and so
  -- is the Location that it writes for it, unless the address has a backslash.
  abbrev pub LandsLocally : (Bytes → Bool) → Step (Unit {0}) → Type 0
  LandsLocally parses s =
      (to : Bytes) × (redirects s.0 ≡ to ∷ [])
      × IsLocal to
      × ((has_byte to b'\\' ≡ true) ⊎ IsLocal (location parses to))
      × (s.1 ≡ err (sentinel skip_render))

  module _ (base : Bytes) (mounted : a.base_path ≡ new_base_path base)
      (clean : has_byte (new_base_path base) b'\\' ≡ false) (parses : Bytes → Bool) where
    fail_login-LandsLocally : (e : Error) → LandsLocally parses (fail_login rendered a e)
    unfolding fail_login
    fail_login-LandsLocally e =
        let (there, plainly, _) =
          resolve_redirect-IsLocal base (bytes "/auth/login?login_failed=1") clean in
        let page : IsLocal (bytes "/auth/login?login_failed=1") = ground arith in
        let same : failed_url rendered a
            ≡ new_base_path base ++ bytes "/auth/login?login_failed=1" =
          rw mounted
            (append_assoc (new_base_path base) (bytes "/auth/login") (bytes "?login_failed=1")) in
        let local : IsLocal (failed_url rendered a) =
          rw same (subst IsLocal (plainly page) there) in
        (failed_url rendered a, refl, local, location-IsLocal parses _ local, refl)

    resolved_locally : (target : Bytes) → IsLocal (resolve_redirect a.base_path target)
    resolved_locally target = rw mounted (resolve_redirect-IsLocal base target clean).0

    after_sign_in :
        (s : Step (Unit {0})) (target : Bytes)
        → All Silent s.0
        → LandsLocally parses (
            handle s (fail_login rendered a) (λ u. (
              redirected status_found (resolve_redirect a.base_path target) ∷ [],
              err (sentinel skip_render),
            )))
    after_sign_in (effects, err e) target silent =
        let (to, one, local, written, skips) = fail_login-LandsLocally e in
        (to, redirects-append-Silent effects _ silent ∙ one, local, written, skips)
    after_sign_in (effects, ok u) target silent = (
      resolve_redirect a.base_path target,
      redirects-append-Silent effects _ silent,
      resolved_locally target,
      location-IsLocal parses _ (resolved_locally target),
      refl,
    )

    attempt-LandsLocally :
        (r : Request) (state nonce : Bytes)
        → LandsLocally parses
            (attempt rendered a store now c exchange_code verify on_login r state nonce)
    attempt-LandsLocally r state nonce =
        let (logs, target) = read_auth_redir_cookie rendered a c now r in
        let clears = clear_callback_cookies rendered a store now c exchange_code verify on_login in
        let (to, one, local, written, skips) =
          after_sign_in (sign_in rendered a store now c exchange_code verify on_login r state nonce)
            (or_empty target) (sign_in-Silent r state nonce) in
        (
          to,
          redirects-append-Silent (logs ++ clears) _ (attempt_start-Silent r) ∙ one,
          local,
          written,
          skips,
        )

    -- Of an application whose mount point is a base path without a backslash: unless the provider
    -- reports an error, the answer to the login callback is a redirect, exactly one, whatever the
    -- request, the sealed target and the provider's answers are. What http.Redirect is given is a local
    -- path; the Location that it writes for it is one too, unless there is a backslash in it. Where the
    -- provider reports an error there is no redirect and the answer is an error with status 403.
    pub auth_callback-LandsLocally :
        (r : Request)
        → (query_get r (bytes "error") ≡ []
            → LandsLocally parses
                (auth_callback rendered a store now c exchange_code verify on_login r))
          × (query_get r (bytes "error") ≢ []
              → (redirects (auth_callback rendered a store now c exchange_code verify on_login r).0
                  ≡ [])
                × ((e : Error) × ((auth_callback rendered a store now c exchange_code verify
                        on_login r).1
                      ≡ err e)
                    × ((as_http_error e).code ≡ 403)))
    unfolding auth_callback as_http_error literal_http_error
    auth_callback-LandsLocally r = elim (Bool-cases (query_get r (bytes "error") == [])) [
      | inr denies ↦ rw denies (
        λ fine. cc ((==_iff (query_get r (bytes "error")) []).1 fine, denies),
        λ reported. (
          refl,
          (
            denied rendered a store now c exchange_code verify on_login
                (query_get r (bytes "error")) (query_get r (bytes "error_description")),
            refl,
            refl,
          ),
        ),
      )
      | inl fine ↦ rw fine (
        λ none_there. elim (Option-cases (lookup (bytes "state") r.cookies)) [
          | inl missing ↦
              rw missing (fail_login-LandsLocally (message (lit "no state cookie" ∷ [])))
          | inr (state, there) ↦ rw there (elim (Option-cases (lookup (bytes "nonce") r.cookies)) [
            | inl missing ↦
                rw missing (fail_login-LandsLocally (message (lit "no nonce cookie" ∷ [])))
            | inr (nonce, has) ↦ rw has (attempt-LandsLocally r state nonce)
          ])
        ],
        λ reported. absurd (reported ((==_iff (query_get r (bytes "error")) []).0 fine)),
      )
    ]
