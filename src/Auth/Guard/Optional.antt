-- ===== src/Auth/Guard/Optional.antt =====
-- OptionalAuth against RequireAuth.
use howdah.Base.{
  ◌≡◌, sym, List, [], ◌∷◌, ◌++◌, not, Option, none, some, refl, ap, Bool-cases, inl, inr, All, ◌==◌,
  nat_eq, if◌then◌else◌, ◌∙◌, append-nil,
}
use howdah.Base.Bytes.{Bytes, bytes}
use howdah.Errors.{Error, sentinel, message, wrap, wrap_both, http, Result, ok, err, Result-cases}
use howdah.Errors.Http.{new_http_error}
use howdah.Session.{OauthToken, TokenStore}
use howdah.Auth.{
  Cookie, Effect, sent, too_large, logged, asked, redirected, replied, OidcAuth, Request, Step,
  prefix, handle, session_gone, Level, clear_token_cookie, read_token_cookie,
  session_unavailable_error,
}
use howdah.Auth.Contexts.{IdToken, Context, session_context, with_bearer_token}
use howdah.Auth.Guard.{
  Instants, check_session, require_auth, optional_auth, verified, login_first, login_url,
}
use howdah.Auth.Guard.Silence.{Silent, clear-Silent, read-Silent, check_with-Silent}

-- The effects without the redirects.
abbrev pub quiet : List Effect → List Effect
quiet [] = []
quiet (redirected code to ∷ effects) = quiet effects
quiet (replied code text ∷ effects) = replied code text ∷ quiet effects
quiet (sent c ∷ effects) = sent c ∷ quiet effects
quiet (too_large name ∷ effects) = too_large name ∷ quiet effects
quiet (logged level e ∷ effects) = logged level e ∷ quiet effects
quiet (asked call ∷ effects) = asked call ∷ quiet effects

-- What a public page does where a page that needs a session ends: a redirect to the login page and a
-- session that is unavailable leave the context as it was.
abbrev pub anonymous : Context → Result Context → Result Context
anonymous ctx (ok resolved) = ok resolved
anonymous ctx (err (sentinel s)) = ok ctx
anonymous ctx (err (http code label e)) = if code == 503 then ok ctx else err (http code label e)
anonymous ctx (err (message text)) = err (message text)
anonymous ctx (err (wrap text e)) = err (wrap text e)
anonymous ctx (err (wrap_both e text f)) = err (wrap_both e text f)

quiet-append-Silent :
    (front back : List Effect) → All Silent front → quiet (front ++ back) ≡ front ++ quiet back
quiet-append-Silent [] back h = refl
quiet-append-Silent (redirected code to ∷ front) back (h, hs) = absurd h
quiet-append-Silent (replied code text ∷ front) back (h, hs) = absurd h
quiet-append-Silent (sent c ∷ front) back (h, hs) =
    ap (λ es. sent c ∷ es) (quiet-append-Silent front back hs)
quiet-append-Silent (too_large name ∷ front) back (h, hs) =
    ap (λ es. too_large name ∷ es) (quiet-append-Silent front back hs)
quiet-append-Silent (logged level e ∷ front) back (h, hs) =
    ap (λ es. logged level e ∷ es) (quiet-append-Silent front back hs)
quiet-append-Silent (asked call ∷ front) back (h, hs) =
    ap (λ es. asked call ∷ es) (quiet-append-Silent front back hs)

-- The second step is the first one as a public page has it.
abbrev Public : Context → Step Context → Step Context → Type 0
Public ctx required optional =
    (optional.0 ≡ quiet required.0) × (optional.1 ≡ anonymous ctx required.1)

handle-Public {ℓ} :
    {A : Type ℓ} (ctx : Context) (s : Step A) (f g : Error → Step Context) (n m : A → Step Context)
    → All Silent s.0
    → ((e : Error) → Public ctx (f e) (g e))
    → ((x : A) → Public ctx (n x) (m x))
    → Public ctx (handle s f n) (handle s g m)
handle-Public ctx (effects, err e) f g n m silent fs ns =
    (ap (λ es. effects ++ es) (fs e).0 ∙ sym (quiet-append-Silent effects (f e).0 silent), (fs e).1)
handle-Public ctx (effects, ok x) f g n m silent fs ns =
    (ap (λ es. effects ++ es) (ns x).0 ∙ sym (quiet-append-Silent effects (n x).0 silent), (ns x).1)

module _ (with_headers : Context → Bytes → Result Context) (ctx : Context) where
  session_context-anonymous :
      (tok : OauthToken) (id : IdToken)
      → session_context with_headers ctx tok id
        ≡ anonymous ctx (session_context with_headers ctx tok id)
  unfolding session_context new_http_error
  session_context-anonymous tok id =
      elim (Result-cases (
        with_headers (with_bearer_token ctx tok.access_token)
          (bytes "Bearer " ++ tok.access_token))) [
            | inl (headed, e) ↦ rw e refl
            | inr (e, failed) ↦ rw failed refl
          ]

module _ (rendered : Cookie → Bytes) (a : OidcAuth) (store : TokenStore)
    (exchange : OauthToken → Result OauthToken) (t : Instants) (verify : Bytes → Result IdToken)
    (with_headers : Context → Bytes → Result Context) where
  verified-Public :
      (ctx : Context) (r : Request) (tok : Option OauthToken)
      → Public ctx
          (verified rendered a store exchange t verify with_headers ctx
            (login_first rendered a store exchange t verify with_headers r)
            tok)
          (verified rendered a store exchange t verify with_headers ctx ([], ok ctx) tok)
  verified-Public ctx r none = (refl, refl)
  verified-Public ctx r (some tok) =
      handle-Public ctx ([], verify tok.access_token) _ _ _ _ tt (λ e. (refl, refl))
        (λ id. (refl, session_context-anonymous with_headers ctx tok id))

  read_failed :
      (ctx : Context) (r : Request) (e : Error)
      → Public ctx
          (if not (session_gone e)
            then ([], err (session_unavailable_error e))
            else login_first rendered a store exchange t verify with_headers r)
          ([], ok ctx)
  unfolding new_http_error
  read_failed ctx r e = elim (Bool-cases (session_gone e)) [
    | inl gone ↦ rw gone (refl, refl)
    | inr kept ↦ rw kept (refl, refl)
  ]

  check_failed :
      (ctx : Context) (r : Request) (e : Error)
      → Public ctx
          (if not (session_gone e)
            then (logged Level.error e ∷ [], err (session_unavailable_error e))
            else prefix
                (logged Level.error e ∷ clear_token_cookie rendered a t.cleared_at)
                (login_first rendered a store exchange t verify with_headers r))
          (
            logged Level.error e
                ∷ (if session_gone e then clear_token_cookie rendered a t.cleared_at else []),
            ok ctx,
          )
  unfolding new_http_error
  check_failed ctx r e = elim (Bool-cases (session_gone e)) [
    | inl gone ↦ rw gone (
      ap (λ es. logged Level.error e ∷ es)
          (sym (append-nil (clear_token_cookie rendered a t.cleared_at))
            ∙ sym (
                quiet-append-Silent (clear_token_cookie rendered a t.cleared_at)
                  (redirected 302 (login_url a r) ∷ []) (clear-Silent rendered a t.cleared_at))),
      refl,
    )
    | inr kept ↦ rw kept (refl, refl)
  ]

  -- OptionalAuth does to the response what RequireAuth does, but for the redirect to the login page,
  -- and gives the same context where there is a session: the two agree on every request, whatever the
  -- store, the token endpoint and the verifier answer. Where RequireAuth sends the visitor to log in or
  -- says that the session is unavailable, OptionalAuth gives the context it was handed.
  pub optional_auth-eq-require_auth :
      (ctx : Context) (r : Request)
      → ((optional_auth rendered a store exchange t verify with_headers ctx r).0
          ≡ quiet (require_auth rendered a store exchange t verify with_headers ctx r).0)
        × ((optional_auth rendered a store exchange t verify with_headers ctx r).1
            ≡ anonymous ctx (require_auth rendered a store exchange t verify with_headers ctx r).1)
  unfolding require_auth optional_auth
  optional_auth-eq-require_auth ctx r =
      handle-Public ctx (read_token_cookie rendered store.get a t.read_at r.cookies) _ _ _ _
        (read-Silent rendered a store exchange t r.cookies) (λ e. read_failed ctx r e)
        (λ session.
          handle-Public ctx (check_session rendered a store exchange t session) _ _ _ _
            (check_with-Silent rendered a store exchange t session session.token)
            (λ e. check_failed ctx r e) (λ tok. verified-Public ctx r tok))
