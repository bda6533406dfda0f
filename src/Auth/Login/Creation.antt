-- ===== src/Auth/Login/Creation.antt =====
-- When the login callback creates a session.
use howdah.Base.{
  ◌≡◌, ◌⊎◌, inl, inr, List, [], ◌∷◌, ◌++◌, Option, none, some, refl, ap, ◌∙◌, arith, Bool-cases,
  Option-cases, ◌==◌, ==_iff, nat_eq,
}
use howdah.Base.Bytes.{Bytes, bytes, bytes_eq}
use howdah.Base.Dict.{lookup}
use howdah.Clock.{Time}
use howdah.Crypto.{Crypto}
use howdah.Envelope.{open_value}
use howdah.Errors.{Error, Result, ok, wrapped, lit, wrapped-eq-ok, Result-cases}
use howdah.Session.{OauthToken, NewSession, StoredToken, TokenStore}
use howdah.Auth.{Cookie, Effect, OidcAuth, Request, set_cookie, set_token_cookie}
use howdah.Auth.Contexts.{IdToken}
use howdah.Auth.Login.Creations.{
  creations, creations-append, handle-creations, handle-creations_last, refuse_unless-creations,
  refuse_unless-ok,
}
use howdah.Auth.Login.{
  query_get, assume_token_expiry, ◌then_do◌, lifted, refuse_unless, clear_callback_cookie,
  fail_login, redir_value, read_auth_redir_cookie, auth_redir_cookie_name, raw_id_token,
  run_callback, create_step, cookie_set, begin_session, sign_in, clear_callback_cookies, attempt,
  with_nonce, with_state, auth_callback,
}

module _ (rendered : Cookie → Bytes) (a : OidcAuth) where
  set_token_cookie-creations :
      (session : StoredToken) (effects : List Effect)
      → set_token_cookie rendered a session ≡ ok effects
      → creations effects ≡ []
  unfolding set_token_cookie set_cookie
  set_token_cookie-creations session effects h = ground arith

  module _ (store : TokenStore) (now : Time) (c : Crypto)
      (exchange_code : Bytes → Result OauthToken) (verify : Bytes → Result IdToken)
      (on_login : Option (IdToken → Result (Unit {0}))) where
    -- The request is the provider's answer to this browser's login attempt, and the session is that of
    -- the identity that the provider vouches for.
    pub record IsLogin (r : Request) (new : NewSession) : Type 0 where
      pub state : Bytes
      pub nonce : Bytes
      pub tok : OauthToken
      pub raw_token : Bytes
      pub id : IdToken
      pub no_error : query_get r (bytes "error") ≡ []
      pub state_cookie : lookup (bytes "state") r.cookies ≡ some state
      pub nonce_cookie : lookup (bytes "nonce") r.cookies ≡ some nonce
      pub same_state : query_get r (bytes "state") ≡ state
      pub exchanged : exchange_code (query_get r (bytes "code")) ≡ ok tok
      pub id_token : tok.id_token ≡ some raw_token
      pub verified : verify raw_token ≡ ok id
      pub same_nonce : id.nonce ≡ nonce
      pub allowed :
          (run_callback rendered a store now c exchange_code verify on_login on_login id).1 ≡ ok tt
      pub session : new ≡ record {
        subject = id.subject;
        token = some (assume_token_expiry now tok).1;
        id_token = raw_token;
      }

    -- Nothing is created, or one session of a login.
    abbrev pub Creates : Request → List NewSession → Type 0
    Creates r news = (news ≡ []) ⊎ ((new : NewSession) × (news ≡ new ∷ []) × IsLogin r new)

    run_callback-creations :
        (callback : Option (IdToken → Result (Unit {0}))) (id : IdToken)
        → creations
            (run_callback rendered a store now c exchange_code verify on_login callback id).0
          ≡ []
    run_callback-creations none id = refl
    run_callback-creations (some callback) id = refl

    raw_id_token-creations :
        (raw_token : Option Bytes)
        → creations (raw_id_token rendered a store now c exchange_code verify on_login raw_token).0
          ≡ []
    raw_id_token-creations none = refl
    raw_id_token-creations (some raw_token) = refl

    pub raw_id_token-ok :
        (given : Option Bytes) (raw_token : Bytes)
        → (raw_id_token rendered a store now c exchange_code verify on_login given).1 ≡ ok raw_token
        → given ≡ some raw_token
    raw_id_token-ok none raw_token h = cc
    raw_id_token-ok (some given) raw_token h = ground (arith, h)

    assume-creations : (tok : OauthToken) → creations (assume_token_expiry now tok).0 ≡ []
    unfolding assume_token_expiry
    assume-creations tok = ground arith

    cookie_set-creations :
        (session : StoredToken)
        → creations (cookie_set rendered a store now c exchange_code verify on_login session).0 ≡ []
    cookie_set-creations session = elim (Result-cases (set_token_cookie rendered a session)) [
      | inl (effects, e) ↦ rw e (set_token_cookie-creations session effects e)
      | inr (e, failed) ↦ rw failed refl
    ]

    create_step-creations :
        (new : NewSession)
        → creations
            (create_step rendered a store now c exchange_code verify on_login new
              then_do cookie_set rendered a store now c exchange_code verify on_login).0
          ≡ new ∷ []
    create_step-creations new = elim (Result-cases (store.create new)) [
      | inl (session, e) ↦ rw e (ap (λ cs. new ∷ cs) (cookie_set-creations session))
      | inr (e, failed) ↦ rw failed refl
    ]

    begin_session-creations :
        (r : Request) (tok : OauthToken) (raw_token : Bytes) (id : IdToken)
        → ((run_callback rendered a store now c exchange_code verify on_login on_login id).1 ≡ ok tt
            → IsLogin r (record {
              subject = id.subject;
              token = some (assume_token_expiry now tok).1;
              id_token = raw_token;
            }))
        → Creates r (
            creations
              (begin_session rendered a store now c exchange_code verify on_login tok raw_token
                id).0)
    begin_session-creations r tok raw_token id login =
        let new : NewSession = record {
          subject = id.subject;
          token = some (assume_token_expiry now tok).1;
          id_token = raw_token;
        } in
        handle-creations (Creates r)
          (run_callback rendered a store now c exchange_code verify on_login on_login id) _ _
          (run_callback-creations on_login id) (λ e. refl) (inl refl)
          (λ u allowed. inr (
            new,
            creations-append (assume_token_expiry now tok).0 _
                ∙ rw (assume-creations tok) (create_step-creations new),
            login allowed,
          ))

    sign_in-creations :
        (r : Request) (state nonce : Bytes)
        → query_get r (bytes "error") ≡ []
        → lookup (bytes "state") r.cookies ≡ some state
        → lookup (bytes "nonce") r.cookies ≡ some nonce
        → Creates r (
            creations
              (sign_in rendered a store now c exchange_code verify on_login r state nonce).0)
    unfolding sign_in
    sign_in-creations r state nonce fine with_state with_nonce =
        let P = Creates r in
        handle-creations P
          (refuse_unless (query_get r (bytes "state") == state) "state did not match") _ _
          (refuse_unless-creations _ _) (λ e. refl) (inl refl)
          λ u same.
            handle-creations P
              (lifted (
                wrapped (lit "exchange the authorization code" ∷ [])
                  (exchange_code (query_get r (bytes "code")))))
              _ _ refl (λ e. refl) (inl refl)
              λ tok got.
                handle-creations P
                  (raw_id_token rendered a store now c exchange_code verify on_login tok.id_token) _
                  _ (raw_id_token-creations tok.id_token) (λ e. refl) (inl refl)
                  λ raw_token has.
                    handle-creations P
                      (lifted (wrapped (lit "verify the ID token" ∷ []) (verify raw_token))) _ _
                      refl (λ e. refl) (inl refl)
                      λ id verifies.
                        handle-creations P (refuse_unless (id.nonce == nonce) "nonce did not match")
                          _ _ (refuse_unless-creations _ _) (λ e. refl) (inl refl)
                          λ u same_nonce. begin_session-creations r tok raw_token id λ allowed.
                            record {
                              state = state;
                              nonce = nonce;
                              tok = tok;
                              raw_token = raw_token;
                              id = id;
                              no_error = fine;
                              state_cookie = with_state;
                              nonce_cookie = with_nonce;
                              same_state =
                                  (==_iff (query_get r (bytes "state")) state).0
                                    (refuse_unless-ok _ _ u same);
                              exchanged = wrapped-eq-ok _ _ got;
                              id_token = raw_id_token-ok tok.id_token raw_token has;
                              verified = wrapped-eq-ok _ _ verifies;
                              same_nonce =
                                  (==_iff id.nonce nonce).0 (refuse_unless-ok _ _ u same_nonce);
                              allowed = allowed;
                              session = refl;
                            }

    fail_login-creations : (e : Error) → creations (fail_login rendered a e).0 ≡ []
    unfolding fail_login
    fail_login-creations e = refl

    redir_value-creations :
        (value : Option Bytes) → creations (redir_value rendered a c now value).0 ≡ []
    redir_value-creations none = refl
    redir_value-creations (some value) =
        elim (Result-cases (open_value c (some a.keyring) now a.redir_domain value)) [
          | inl (opened, e) ↦ rw e refl
          | inr (e, failed) ↦ rw failed refl
        ]

    read_redir-creations :
        (r : Request) → creations (read_auth_redir_cookie rendered a c now r).0 ≡ []
    unfolding read_auth_redir_cookie
    read_redir-creations r = redir_value-creations _

    clear_callback-creations :
        (name : Bytes) → creations (clear_callback_cookie rendered a now name) ≡ []
    unfolding clear_callback_cookie set_cookie
    clear_callback-creations name = ground arith

    clears-creations :
        creations (clear_callback_cookies rendered a store now c exchange_code verify on_login) ≡ []
    clears-creations =
        let state = clear_callback_cookie rendered a now (bytes "state") in
        let nonce = clear_callback_cookie rendered a now (bytes "nonce") in
        let redir = clear_callback_cookie rendered a now auth_redir_cookie_name in
        simp (creations-append, clear_callback-creations)

    attempt-creations :
        (r : Request) (state nonce : Bytes)
        → creations (attempt rendered a store now c exchange_code verify on_login r state nonce).0
          ≡ creations (sign_in rendered a store now c exchange_code verify on_login r state nonce).0
    attempt-creations r state nonce =
        let (logs, target) = read_auth_redir_cookie rendered a c now r in
        let clears = clear_callback_cookies rendered a store now c exchange_code verify on_login in
        let signed = sign_in rendered a store now c exchange_code verify on_login r state nonce in
        creations-append (logs ++ clears) _
        ∙ rw (creations-append logs clears, read_redir-creations r, clears-creations)
            (handle-creations_last signed (fail_login rendered a) _ fail_login-creations
              (λ u. refl))

    -- The login callback asks the store for one session at most, and only for a request that carries
    -- the state and nonce of this browser's login attempt, whose code the provider exchanged for a
    -- token with an ID token that verifies and has that nonce, and whose login the application's
    -- callback allowed. The session is that of the verified identity, with the token received and, where
    -- it came with no expiry, the assumed one.
    pub auth_callback-Creates :
        (r : Request)
        → Creates r
            (creations (auth_callback rendered a store now c exchange_code verify on_login r).0)
    unfolding auth_callback
    auth_callback-Creates r = elim (Bool-cases (query_get r (bytes "error") == [])) [
      | inr denies ↦ rw denies (inl refl)
      | inl fine ↦ rw fine (elim (Option-cases (lookup (bytes "state") r.cookies)) [
        | inl missing ↦ rw missing (inl refl)
        | inr (state, there) ↦ rw there (elim (Option-cases (lookup (bytes "nonce") r.cookies)) [
          | inl missing ↦ rw missing (inl refl)
          | inr (nonce, has) ↦ rw has (
              rw (attempt-creations r state nonce) (
                sign_in-creations r state nonce ((==_iff (query_get r (bytes "error")) []).0 fine)
                  there has))
        ])
      ])
    ]
