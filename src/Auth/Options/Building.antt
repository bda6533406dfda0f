-- ===== src/Auth/Options/Building.antt =====
-- What an authentication component that is built has.
use howdah.Base.{
  ◌≡◌, ◌≢◌, ◌⊎◌, List, Bool, true, false, Option, none, some, refl, ap, sym, ◌∙◌, arith, Bool-cases,
  inl, inr, [], ◌∷◌,
}
use howdah.Base.Bytes.{Bytes}
use howdah.Clock.{is_positive}
use howdah.CookieStore.{CookieTokenStore}
use howdah.Envelope.Domain.{Purpose, session, auth_redirect, cookie_domain}
use howdah.Envelope.Domain.Separation.{cookie_domain_injective}
use howdah.Errors.{ok, wrapped, lit, >>=-eq-ok, wrapped-eq-ok}
use howdah.Keyring.{CookieKeyring}
use howdah.Auth.Options.{
  OidcAuthOption, Settings, Built, apply_settings, default_settings, store_of, build, new_oidc_auth,
}

module _ (S : Type 0) where
  -- A component that is built: its cookies' domains are those of its cookie name, and a store of its
  -- own keeps sessions for a positive time under the domain of the session cookie.
  pub record IsBuilt (k : CookieKeyring) (b : Built S) : Type 0 where
    pub keyring : b.auth.keyring ≡ k
    pub session_domain : cookie_domain session b.auth.cookie_name ≡ ok b.auth.session_domain
    pub redir_domain : cookie_domain auth_redirect b.auth.cookie_name ≡ ok b.auth.redir_domain
    pub own_store :
        (own : CookieTokenStore)
        → b.store ≡ inr own
        → (own.keyring ≡ k)
          × (own.domain ≡ b.auth.session_domain)
          × (is_positive own.max_session_age ≡ true)

  store_of-own :
      (given : Option S) (set : Bool) (own made : CookieTokenStore) (chosen : S ⊎ CookieTokenStore)
      → store_of S given set own ≡ ok chosen
      → chosen ≡ inr made
      → own ≡ made
  store_of-own none set own made chosen h e = ground arith
  store_of-own (some store) true own made chosen h e = cc
  store_of-own (some store) false own made chosen h e = ground arith

  build-IsBuilt :
      (k : CookieKeyring) (a : Settings S) (b : Built S)
      → is_positive a.max_session_age ≡ true
      → build S k a ≡ ok b
      → IsBuilt k b
  build-IsBuilt k a b lasting h =
      let (session_domain, named, h1) =
        >>=-eq-ok (wrapped (lit "session cookie" ∷ []) (cookie_domain session a.cookie_name)) _ h in
      let (redir_domain, redirected, h2) =
        >>=-eq-ok
          (wrapped (lit "auth redirect cookie" ∷ []) (cookie_domain auth_redirect a.cookie_name)) _
          h1 in
      let own : CookieTokenStore = record {
        keyring = k;
        domain = session_domain;
        max_session_age = a.max_session_age;
      } in
      let (chosen, chooses, h3) = >>=-eq-ok (store_of S a.store a.max_session_age_set own) _ h2 in
      let name : a.cookie_name ≡ b.auth.cookie_name = ground (arith, h3) in
      let first : session_domain ≡ b.auth.session_domain = ground (arith, h3) in
      let second : redir_domain ≡ b.auth.redir_domain = ground (arith, h3) in
      let held : chosen ≡ b.store = ground (arith, h3) in
      record {
        keyring = ground (arith, h3);
        session_domain = rw (← name, ← first) (wrapped-eq-ok _ _ named);
        redir_domain = rw (← name, ← second) (wrapped-eq-ok _ _ redirected);
        own_store = λ made e.
            let same =
              store_of-own a.store a.max_session_age_set own made chosen chooses (held ∙ e) in
            rw (← same, ← first) (refl, refl, lasting);
      }

  new_oidc_auth-IsBuilt :
      (k : CookieKeyring) (opts : List (OidcAuthOption S)) (b : Built S)
      → new_oidc_auth S (some k) opts ≡ ok b
      → IsBuilt k b
  unfolding new_oidc_auth
  new_oidc_auth-IsBuilt k opts b h =
      let a = apply_settings S opts (default_settings S) in
      elim (Bool-cases (is_positive a.max_session_age)) [
        | inl lasting ↦ build-IsBuilt k a b lasting (rw lasting at h)
        | inr over ↦ absurd (cc (rw over at h))
      ]

  different :
      (p q : Purpose) (m n d e : Bytes)
      → cookie_domain p m ≡ ok d
      → cookie_domain q n ≡ ok e
      → ¬ ((p ≡ q) × (m ≡ n))
      → d ≢ e
  different p q m n d e hm hn apart same =
      apart (cookie_domain_injective p q m n d hm (hn ∙ ap ok (sym same)))

  -- However it is configured, a component that is built seals with the keyring it was given, a store
  -- that it builds for itself keeps sessions for a positive time under the session cookie's domain, and
  -- its two kinds of cookie have different domains; and two applications with different session cookie
  -- names have no domain in common, whatever keyring they use.
  pub new_oidc_auth-separate :
      (k k' : CookieKeyring) (opts opts' : List (OidcAuthOption S)) (b b' : Built S)
      → new_oidc_auth S (some k) opts ≡ ok b
      → new_oidc_auth S (some k') opts' ≡ ok b'
      → IsBuilt k b
        × (b.auth.session_domain ≢ b.auth.redir_domain)
        × (b.auth.cookie_name ≢ b'.auth.cookie_name
            → (b.auth.session_domain ≢ b'.auth.session_domain)
              × (b.auth.session_domain ≢ b'.auth.redir_domain)
              × (b.auth.redir_domain ≢ b'.auth.session_domain)
              × (b.auth.redir_domain ≢ b'.auth.redir_domain))
  new_oidc_auth-separate k k' opts opts' b b' h h' =
      let built = new_oidc_auth-IsBuilt k opts b h in
      let built' = new_oidc_auth-IsBuilt k' opts' b' h' in
      (
        built,
        different session auth_redirect _ _ _ _ built.session_domain built.redir_domain (λ p. cc),
        λ apart. (
          different session session _ _ _ _ built.session_domain built'.session_domain
              (λ p. apart p.1),
          different session auth_redirect _ _ _ _ built.session_domain built'.redir_domain
              (λ p. apart p.1),
          different auth_redirect session _ _ _ _ built.redir_domain built'.session_domain
              (λ p. apart p.1),
          different auth_redirect auth_redirect _ _ _ _ built.redir_domain built'.redir_domain
              (λ p. apart p.1),
        ),
      )
