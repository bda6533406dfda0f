-- ===== src/Auth/CookieBacked/Signing.antt =====
-- What a sign-in that succeeds leaves behind: a session in the store and a cookie with its handle.
use howdah.Base.{
  ◌≡◌, List, [], ◌∷◌, ◌++◌, Bool, true, Option, some, refl, arith, Bool-cases, inl, inr, In,
  In-append_right, ◌==◌, nat_eq, subst, ltb, length, not,
}
use howdah.Base.Bytes.{Bytes, bytes, bytes_eq}
use howdah.Base.Int.{pos}
use howdah.BasePath.{path}
use howdah.Clock.{Time}
use howdah.Crypto.{Crypto}
use howdah.Errors.{Result, ok, err, lit, wrapped, wrapped-eq-ok, Result-cases}
use howdah.Session.{OauthToken, StoredToken, TokenStore}
use howdah.Auth.{Cookie, Effect, sent, OidcAuth, Request, Step, set_cookie, set_token_cookie, plain}
use howdah.Auth.Login.Creation.{raw_id_token-ok}
use howdah.Auth.Contexts.{IdToken}
use howdah.Auth.Login.{
  query_get, assume_token_expiry, ◌then_do◌, lifted, refuse_unless, raw_id_token, run_callback,
  create_step, cookie_set, begin_session, sign_in,
}

-- Of a chain that succeeds: what holds of the effects of what follows its first step, and is kept
-- when more effects come before, holds of all its effects.
then_do-keeps {ℓ κ} :
    {A : Type ℓ} {B : Type κ} (Q : List Effect → Type 0) (s : Step A) (next : A → Step B) (y : B)
    → ((front effects : List Effect) → Q effects → Q (front ++ effects))
    → ((x : A) → s.1 ≡ ok x → (next x).1 ≡ ok y → Q (next x).0)
    → (s then_do next).1 ≡ ok y
    → Q (s then_do next).0
then_do-keeps Q (effects, err e) next y keep n h = cc
then_do-keeps Q (effects, ok x) next y keep n h = keep effects (next x).0 (n x refl h)

module _ (rendered : Cookie → Bytes) (a : OidcAuth) where
  set_cookie-In :
      (k : Cookie) (insecure : Bool)
      → In
          (sent (record k { http_only = true; lax = true; secure = not insecure }))
          (set_cookie rendered k insecure)
  unfolding set_cookie
  set_cookie-In k insecure =
      let whole = record k { http_only = true; lax = true; secure = not insecure } in
      elim (Bool-cases (ltb 4096 (length (rendered whole)))) [
        | inl large ↦ rw large (inr (inl refl))
        | inr fits ↦ rw fits (inl refl)
      ]

  set_token_cookie-In :
      (session : StoredToken) (effects : List Effect)
      → set_token_cookie rendered a session ≡ ok effects
      → (k : Cookie) × In (sent k) effects × (k.name ≡ a.cookie_name) × (k.value ≡ session.handle)
  unfolding set_token_cookie
  set_token_cookie-In session effects h =
      let k =
        plain a.cookie_name session.handle (path a.base_path (bytes "/")) (some session.expires_at)
          (pos 0) in
      let same : set_cookie rendered k a.insecure ≡ effects = ground (arith, h) in
      (
        record k { http_only = true; lax = true; secure = not a.insecure },
        subst
            (λ es.
              In (sent (record k { http_only = true; lax = true; secure = not a.insecure })) es)
            same (set_cookie-In k a.insecure),
        refl,
        refl,
      )

  module _ (store : TokenStore) (now : Time) (c : Crypto)
      (exchange_code : Bytes → Result OauthToken) (verify : Bytes → Result IdToken)
      (on_login : Option (IdToken → Result (Unit {0}))) where
    -- The session of a login that succeeded, and the cookie that carries it.
    pub record Signed (code : Bytes) (effects : List Effect) : Type 0 where
      pub tok : OauthToken
      pub raw_token : Bytes
      pub id : IdToken
      pub session : StoredToken
      pub k : Cookie
      pub exchanged : exchange_code code ≡ ok tok
      pub id_token : tok.id_token ≡ some raw_token
      pub verified : verify raw_token ≡ ok id
      pub stored :
          store.create (record {
            subject = id.subject;
            token = some (assume_token_expiry now tok).1;
            id_token = raw_token;
          })
          ≡ ok session
      pub there : In (sent k) effects
      pub name : k.name ≡ a.cookie_name
      pub value : k.value ≡ session.handle

    Signed-prefix :
        (code : Bytes) (front effects : List Effect)
        → Signed code effects
        → Signed code (front ++ effects)
    Signed-prefix code front effects signed = record {
      tok = signed.tok;
      raw_token = signed.raw_token;
      id = signed.id;
      session = signed.session;
      k = signed.k;
      exchanged = signed.exchanged;
      id_token = signed.id_token;
      verified = signed.verified;
      stored = signed.stored;
      there = In-append_right (sent signed.k) front effects signed.there;
      name = signed.name;
      value = signed.value;
    }

    cookie_set-Signed :
        (code : Bytes) (tok : OauthToken) (raw_token : Bytes) (id : IdToken) (session : StoredToken)
        (u : Unit {0})
        → exchange_code code ≡ ok tok
        → tok.id_token ≡ some raw_token
        → verify raw_token ≡ ok id
        → store.create (record {
          subject = id.subject;
          token = some (assume_token_expiry now tok).1;
          id_token = raw_token;
        })
          ≡ ok session
        → (cookie_set rendered a store now c exchange_code verify on_login session).1 ≡ ok u
        → Signed code (cookie_set rendered a store now c exchange_code verify on_login session).0
    cookie_set-Signed code tok raw_token id session u got has verifies made h =
        elim (Result-cases (set_token_cookie rendered a session)) [
          | inr (e, failed) ↦ absurd (cc (rw failed at h))
          | inl (effects, e) ↦
              let (k, there, name, value) = set_token_cookie-In session effects e in
              rw e (record {
                tok = tok;
                raw_token = raw_token;
                id = id;
                session = session;
                k = k;
                exchanged = got;
                id_token = has;
                verified = verifies;
                stored = made;
                there = there;
                name = name;
                value = value;
              })
        ]

    begin_session-Signed :
        (code : Bytes) (tok : OauthToken) (raw_token : Bytes) (id : IdToken) (u : Unit {0})
        → exchange_code code ≡ ok tok
        → tok.id_token ≡ some raw_token
        → verify raw_token ≡ ok id
        → (begin_session rendered a store now c exchange_code verify on_login tok raw_token id).1
          ≡ ok u
        → Signed code
            (begin_session rendered a store now c exchange_code verify on_login tok raw_token id).0
    begin_session-Signed code tok raw_token id u got has verifies =
        then_do-keeps (Signed code)
          (run_callback rendered a store now c exchange_code verify on_login on_login id) _ u
          (Signed-prefix code)
          λ _ _ h. Signed-prefix code (assume_token_expiry now tok).0 _ (
            then_do-keeps (Signed code)
              (create_step rendered a store now c exchange_code verify on_login _)
              (cookie_set rendered a store now c exchange_code verify on_login) u
              (Signed-prefix code)
              (λ session made sets.
                cookie_set-Signed code tok raw_token id session u got has verifies
                  (wrapped-eq-ok _ _ made) sets)
              h)

    pub sign_in-Signed :
        (r : Request) (state nonce : Bytes) (u : Unit {0})
        → (sign_in rendered a store now c exchange_code verify on_login r state nonce).1 ≡ ok u
        → Signed
            (query_get r (bytes "code"))
            (sign_in rendered a store now c exchange_code verify on_login r state nonce).0
    unfolding sign_in
    sign_in-Signed r state nonce u =
        let code = query_get r (bytes "code") in
        then_do-keeps (Signed code)
          (refuse_unless (query_get r (bytes "state") == state) "state did not match") _ u
          (Signed-prefix code)
          λ _ _.
            then_do-keeps (Signed code)
              (lifted (
                wrapped (lit "exchange the authorization code" ∷ [])
                  (exchange_code (query_get r (bytes "code")))))
              _ u (Signed-prefix code)
              λ tok got.
                then_do-keeps (Signed code)
                  (raw_id_token rendered a store now c exchange_code verify on_login tok.id_token) _
                  u (Signed-prefix code)
                  λ raw_token has.
                    then_do-keeps (Signed code)
                      (lifted (wrapped (lit "verify the ID token" ∷ []) (verify raw_token))) _ u
                      (Signed-prefix code)
                      λ id verifies.
                        then_do-keeps (Signed code)
                          (refuse_unless (id.nonce == nonce) "nonce did not match") _ u
                          (Signed-prefix code)
                          λ _ _.
                            begin_session-Signed code tok raw_token id u (wrapped-eq-ok _ _ got)
                              (raw_id_token-ok rendered a store now c exchange_code verify on_login
                                tok.id_token raw_token has)
                              (wrapped-eq-ok _ _ verifies)
