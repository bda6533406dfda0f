-- ===== src/Auth/Guard/Writes.antt =====
-- How often a response cookie_writes the session cookie.
use howdah.Base.{
  ℕ, ◌+◌, ◌≤◌, ◌≡◌, List, [], ◌∷◌, ◌++◌, Bool, true, false, Option, none, some, refl, arith,
  Bool-cases, inl, inr, ◌==◌, ==_iff, if◌then◌else◌, nat_eq,
}
use howdah.Base.Bytes.{Bytes, bytes_eq}
use howdah.Base.Int.{int_ltb}
use howdah.Clock.{Time, time_sub}
use howdah.Errors.{Error, Result, ok, err, Result-cases}
use howdah.Session.{OauthToken, StoredToken, TokenStore}
use howdah.Auth.{
  Cookie, Effect, sent, too_large, logged, asked, refreshes_session, redirected, replied, OidcAuth,
  Step, prefix, handle, session_gone, Level, set_cookie, set_token_cookie, clear_token_cookie,
  reject_token_cookie,
}
use howdah.Auth.Guard.{
  Instants, token_refresh_margin, reseal_session, migrate_session_cookie, handed_out,
  with_refreshed, refreshed_to, check_token_expiry, check_with, migrates,
}

-- How many cookies of this name the effects send.
abbrev pub cookie_writes : Bytes → List Effect → ℕ
cookie_writes name [] = 0
cookie_writes name (sent c ∷ effects) =
    (if c.name == name then 1 else 0) + cookie_writes name effects
cookie_writes name (too_large n ∷ effects) = cookie_writes name effects
cookie_writes name (logged level e ∷ effects) = cookie_writes name effects
cookie_writes name (asked call ∷ effects) = cookie_writes name effects
cookie_writes name (redirected code to ∷ effects) = cookie_writes name effects
cookie_writes name (replied code text ∷ effects) = cookie_writes name effects

pub cookie_writes-append :
    (name : Bytes) (front back : List Effect)
    → cookie_writes name (front ++ back) ≡ cookie_writes name front + cookie_writes name back
cookie_writes-append name [] back = omega arith
cookie_writes-append name (sent c ∷ front) back =
    omega (arith, cookie_writes-append name front back)
cookie_writes-append name (too_large n ∷ front) back = cookie_writes-append name front back
cookie_writes-append name (logged level e ∷ front) back = cookie_writes-append name front back
cookie_writes-append name (asked call ∷ front) back = cookie_writes-append name front back
cookie_writes-append name (redirected code to ∷ front) back = cookie_writes-append name front back
cookie_writes-append name (replied code text ∷ front) back = cookie_writes-append name front back

module _ (rendered : Cookie → Bytes) (a : OidcAuth) where
  pub clear-writes :
      (now : Time) → cookie_writes a.cookie_name (clear_token_cookie rendered a now) ≡ 1
  unfolding clear_token_cookie set_cookie
  clear-writes now = ground (arith, ==_iff a.cookie_name a.cookie_name)

  set-writes :
      (session : StoredToken) (effects : List Effect)
      → set_token_cookie rendered a session ≡ ok effects
      → cookie_writes a.cookie_name effects ≡ 1
  unfolding set_token_cookie set_cookie
  set-writes session effects h = ground (arith, ==_iff a.cookie_name a.cookie_name)

  pub reject-writes :
      (now : Time) (e : Error)
      → cookie_writes a.cookie_name (reject_token_cookie rendered a now e) ≤ 1
  unfolding reject_token_cookie
  reject-writes now e = ground (arith, clear-writes now)

  pub reject-writes_kept :
      (now : Time) (e : Error)
      → session_gone e ≡ false
      → cookie_writes a.cookie_name (reject_token_cookie rendered a now e) ≡ 0
  unfolding reject_token_cookie
  reject-writes_kept now e h = rw h refl

  module _ (store : TokenStore) (exchange : OauthToken → Result OauthToken) (t : Instants) where
    reseal-writes :
        (session : StoredToken)
        → cookie_writes a.cookie_name (reseal_session rendered a store exchange t session).0 ≡ 0
    unfolding reseal_session
    reseal-writes session = elim (Result-cases (store.reseal session)) [
      | inl (resealed, e) ↦ rw e refl
      | inr (e, failed) ↦ rw failed refl
    ]

    migrate-writes :
        (session : StoredToken)
        → cookie_writes a.cookie_name (migrate_session_cookie rendered a store exchange t session)
          ≤ 1
    unfolding migrate_session_cookie
    migrate-writes session =
        let (logs, resealed) = reseal_session rendered a store exchange t session in
        let none_yet : cookie_writes a.cookie_name logs ≡ 0 = reseal-writes session in
        elim (Bool-cases (resealed.handle == session.handle)) [
          | inl same ↦ rw same (omega (arith, none_yet))
          | inr moved ↦ elim (Result-cases (set_token_cookie rendered a resealed)) [
            | inl (effects, e) ↦
                rw (moved, e)
                  (omega (
                    arith,
                    none_yet,
                    cookie_writes-append a.cookie_name logs effects,
                    set-writes resealed effects e,
                  ))
            | inr (e, failed) ↦
                rw (moved, failed)
                  (omega (
                    arith,
                    none_yet,
                    cookie_writes-append a.cookie_name logs (logged Level.error e ∷ []),
                  ))
          ]
        ]

    -- A step that cookie_writes the cookie once at most, and never where it fails.
    abbrev pub Once : Step (Option OauthToken) → Type 0
    Once s =
        (cookie_writes a.cookie_name s.0 ≤ 1)
        × ((e : Error) → s.1 ≡ err e → cookie_writes a.cookie_name s.0 ≡ 0)

    handed_out-Once :
        (handle : Bytes) (moved : StoredToken)
        → Once (handed_out rendered a store exchange t handle moved)
    handed_out-Once handle moved = elim (Bool-cases (moved.handle == handle)) [
      | inl same ↦ rw same (omega arith, λ e h. refl)
      | inr other ↦ elim (Result-cases (set_token_cookie rendered a moved)) [
        | inl (effects, e) ↦ rw (other, e) (omega (arith, set-writes moved effects e), λ f h. cc)
        | inr (e, failed) ↦ rw (other, failed) (omega arith, λ f h. refl)
      ]
    ]

    prefix-Once :
        (front : List Effect) (s : Step (Option OauthToken))
        → cookie_writes a.cookie_name front ≡ 0
        → Once s
        → Once (prefix front s)
    prefix-Once front s none_yet (once, never) = (
      omega (arith, cookie_writes-append a.cookie_name front s.0),
      λ e h. omega (arith, cookie_writes-append a.cookie_name front s.0, never e h),
    )

    with_refreshed-Once :
        (session refreshed : StoredToken) (tok : Option OauthToken)
        → Once (with_refreshed rendered a store exchange t session refreshed tok)
    with_refreshed-Once session refreshed none = (omega arith, λ e h. refl)
    with_refreshed-Once session refreshed (some tok) = elim (Bool-cases session.stale) [
      | inl stale ↦
          let (logs, moved) = reseal_session rendered a store exchange t refreshed in
          rw stale (
            prefix-Once logs (handed_out rendered a store exchange t session.handle moved)
              (reseal-writes refreshed) (handed_out-Once session.handle moved))
      | inr current ↦ rw current (handed_out-Once session.handle refreshed)
    ]

    refreshed_to-Once :
        (session : StoredToken) (r : Result (Option StoredToken))
        → Once (refreshed_to rendered a store exchange t session r)
    refreshed_to-Once session (err e) = (omega arith, λ f h. refl)
    refreshed_to-Once session (ok none) = with_refreshed-Once session session none
    refreshed_to-Once session (ok (some refreshed)) =
        with_refreshed-Once session refreshed refreshed.token

    migrates-writes :
        (session : StoredToken) (stale : Bool)
        → cookie_writes a.cookie_name (migrates rendered a store exchange t session stale) ≤ 1
    migrates-writes session false = omega arith
    migrates-writes session true = migrate-writes session

    check_token_expiry-Once :
        (session : StoredToken) (tok : OauthToken)
        → Once (check_token_expiry rendered a store exchange t session tok)
    unfolding check_token_expiry
    check_token_expiry-Once session tok =
        elim (Bool-cases (int_ltb token_refresh_margin (time_sub tok.expiry t.until_at))) [
          | inl fresh ↦ rw fresh (migrates-writes session session.stale, λ e h. cc)
          | inr dying ↦ rw dying (
              prefix-Once (asked (refreshes_session session) ∷ [])
                (refreshed_to rendered a store exchange t session (store.refresh session exchange))
                refl (refreshed_to-Once session (store.refresh session exchange)))
        ]

    pub check_with-Once :
        (session : StoredToken) (tok : Option OauthToken)
        → Once (check_with rendered a store exchange t session tok)
    check_with-Once session none = (omega arith, λ e h. refl)
    check_with-Once session (some tok) = check_token_expiry-Once session tok
