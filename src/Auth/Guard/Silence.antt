-- ===== src/Auth/Guard/Silence.antt =====
-- Reading the session and checking its expiry neither redirect nor reply.
use howdah.Base.{
  ◌≡◌, List, Bool, true, false, Option, none, some, arith, Bool-cases, inl, inr, All, All-append,
  ◌==◌, nat_eq,
}
use howdah.Base.Bytes.{Bytes, bytes_eq}
use howdah.Base.Int.{int_ltb}
use howdah.Clock.{Time, time_sub}
use howdah.Errors.{Error, Result, ok, err, Result-cases}
use howdah.Session.{OauthToken, StoredToken, TokenStore}
use howdah.Auth.{
  Cookie, Effect, sent, too_large, logged, asked, redirected, replied, OidcAuth, session_gone,
  set_cookie, set_token_cookie, clear_token_cookie, reject_token_cookie, read_token_cookie,
  require_token, from_cookie, no_token,
}
use howdah.Auth.Guard.{
  Instants, token_refresh_margin, reseal_session, migrate_session_cookie, migrates, handed_out,
  with_refreshed, refreshed_to, check_token_expiry, check_with,
}

-- The effect leaves the answer to the handler: it redirects nowhere and replies with nothing.
abbrev pub Silent : Effect → Type 0
Silent (redirected code to) = ⊥
Silent (replied code text) = ⊥
Silent (sent c) = Unit
Silent (too_large name) = Unit
Silent (logged level e) = Unit
Silent (asked call) = Unit

module _ (rendered : Cookie → Bytes) (a : OidcAuth) where
  pub clear-Silent : (now : Time) → All Silent (clear_token_cookie rendered a now)
  unfolding clear_token_cookie set_cookie
  clear-Silent now = ground arith

  pub set_token_cookie-Silent :
      (session : StoredToken) (effects : List Effect)
      → set_token_cookie rendered a session ≡ ok effects
      → All Silent effects
  unfolding set_token_cookie set_cookie
  set_token_cookie-Silent session effects h = ground arith

  reject-Silent : (now : Time) (e : Error) → All Silent (reject_token_cookie rendered a now e)
  unfolding reject_token_cookie
  reject-Silent now e = elim (Bool-cases (session_gone e)) [
    | inl gone ↦ rw gone (tt, clear-Silent now)
    | inr kept ↦ rw kept (tt, tt)
  ]

  module _ (store : TokenStore) (exchange : OauthToken → Result OauthToken) (t : Instants) where
    require_token-Silent :
        (session : StoredToken) (tok : Option OauthToken)
        → All Silent (require_token rendered store.get a t.read_at session tok).0
    require_token-Silent session none = reject-Silent t.read_at (no_token rendered store.get)
    require_token-Silent session (some tok) = tt

    from_cookie-Silent :
        (value : Option Bytes) → All Silent (from_cookie rendered store.get a t.read_at value).0
    from_cookie-Silent none = tt
    from_cookie-Silent (some value) = elim (Result-cases (store.get value)) [
      | inl (session, got) ↦ rw got (require_token-Silent session session.token)
      | inr (e, failed) ↦ rw failed (reject-Silent t.read_at e)
    ]

    pub read-Silent :
        (cookies : List (Bytes × Bytes))
        → All Silent (read_token_cookie rendered store.get a t.read_at cookies).0
    unfolding read_token_cookie
    read-Silent cookies = from_cookie-Silent _

    reseal-Silent :
        (session : StoredToken) → All Silent (reseal_session rendered a store exchange t session).0
    unfolding reseal_session
    reseal-Silent session = elim (Result-cases (store.reseal session)) [
      | inl (resealed, e) ↦ rw e tt
      | inr (e, failed) ↦ rw failed (tt, tt)
    ]

    migrates-Silent :
        (session : StoredToken) (stale : Bool)
        → All Silent (migrates rendered a store exchange t session stale)
    unfolding migrate_session_cookie
    migrates-Silent session false = tt
    migrates-Silent session true =
        let (logs, resealed) = reseal_session rendered a store exchange t session in
        elim (Bool-cases (resealed.handle == session.handle)) [
          | inl same ↦ rw same (reseal-Silent session)
          | inr moved ↦ elim (Result-cases (set_token_cookie rendered a resealed)) [
            | inl (effects, e) ↦
                rw (moved, e)
                  (All-append Silent logs effects (reseal-Silent session)
                    (set_token_cookie-Silent resealed effects e))
            | inr (e, failed) ↦
                rw (moved, failed) (All-append Silent logs _ (reseal-Silent session) (tt, tt))
          ]
        ]

    handed_out-Silent :
        (handle : Bytes) (moved : StoredToken)
        → All Silent (handed_out rendered a store exchange t handle moved).0
    handed_out-Silent handle moved = elim (Bool-cases (moved.handle == handle)) [
      | inl same ↦ rw same tt
      | inr other ↦ elim (Result-cases (set_token_cookie rendered a moved)) [
        | inl (effects, e) ↦ rw (other, e) (set_token_cookie-Silent moved effects e)
        | inr (e, failed) ↦ rw (other, failed) tt
      ]
    ]

    with_refreshed-Silent :
        (session refreshed : StoredToken) (tok : Option OauthToken)
        → All Silent (with_refreshed rendered a store exchange t session refreshed tok).0
    with_refreshed-Silent session refreshed none = tt
    with_refreshed-Silent session refreshed (some tok) = elim (Bool-cases session.stale) [
      | inl stale ↦
          rw stale
            (All-append Silent _ _ (reseal-Silent refreshed) (handed_out-Silent session.handle _))
      | inr current ↦ rw current (handed_out-Silent session.handle refreshed)
    ]

    refreshed_to-Silent :
        (session : StoredToken) (r : Result (Option StoredToken))
        → All Silent (refreshed_to rendered a store exchange t session r).0
    refreshed_to-Silent session (err e) = tt
    refreshed_to-Silent session (ok none) = tt
    refreshed_to-Silent session (ok (some refreshed)) =
        with_refreshed-Silent session refreshed refreshed.token

    pub check_with-Silent :
        (session : StoredToken) (tok : Option OauthToken)
        → All Silent (check_with rendered a store exchange t session tok).0
    unfolding check_token_expiry
    check_with-Silent session none = tt
    check_with-Silent session (some tok) =
        elim (Bool-cases (int_ltb token_refresh_margin (time_sub tok.expiry t.until_at))) [
          | inl fresh ↦ rw fresh (migrates-Silent session session.stale)
          | inr dying ↦ rw dying (tt, refreshed_to-Silent session (store.refresh session exchange))
        ]
