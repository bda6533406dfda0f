-- ===== src/CookieStore/Expiry.antt =====
-- The absolute expiry of the sessions that descend from a login.
use howdah.Base.{
  ℕ, [], ◌∷◌, ◌≡◌, ◌≤◌, ◌<◌, ◌^◌, ◌+◌, refl, Bool, true, not, arith, Option, none, some, inl, inr,
  length, subst, Option-cases,
}
use howdah.Base.Bytes.{Bytes, IsBytes}
use howdah.Base.Int.{pos}
use howdah.Clock.{Time, time_sub-le}
use howdah.Crypto.{Crypto, IsAead}
use howdah.Errors.{
  Error, Result, ok, err, is, no_session, wrap, lit, sentinel, wrapped-eq-ok, >>=-eq-ok,
}
use howdah.Keyring.Acceptance.{IsKeyring}
use howdah.Session.{OauthToken, without_extra, NewSession, StoredToken}
use howdah.CookieStore.{
  Codec, IsCodec, CookieTokenStore, seal_session, create, get, update, reseal, refresh, exchanged,
  session_from,
}
use howdah.CookieStore.Reading.{IsSession, seal_session-IsSession, read}

-- What rand.Read gives for a nonce.
pub record IsNonce (nonce : Bytes) : Type 0 where
  pub full : length nonce ≡ 12
  pub nonce_bytes : IsBytes nonce

module _ (c : Crypto) (j : Codec) (s : CookieTokenStore) (start : Time) where
  -- The sessions that come of a login at `start`, each with the time of its last write: the store
  -- is handed what a read of an earlier one returned.
  pub data Lineage : Time → StoredToken → Type 0 where
    login :
        (new : NewSession) (nonce : Bytes) (t : StoredToken)
        → IsNonce nonce
        → create c j s start new (ok nonce) ≡ ok t
        → Lineage start t
    updated :
        (now later : Time) (t u : StoredToken) (tok : Option OauthToken) (nonce : Bytes)
        → Lineage now t
        → now ≤ later
        → IsNonce nonce
        → update c j s later t.handle tok (ok nonce) ≡ ok u
        → Lineage later u
    resealed :
        (now mid later : Time) (t found u : StoredToken) (nonce : Bytes)
        → Lineage now t
        → now ≤ mid
        → mid ≤ later
        → get c j s mid t.handle ≡ ok found
        → IsNonce nonce
        → reseal c j s later (some found) (ok nonce) ≡ ok u
        → Lineage later u
    refreshed :
        (now mid later : Time) (t found u : StoredToken)
        (exchange : Option OauthToken → Result (Option OauthToken)) (nonce : Bytes)
        → Lineage now t
        → now ≤ mid
        → mid ≤ later
        → get c j s mid t.handle ≡ ok found
        → IsNonce nonce
        → refresh c j s later found exchange (ok nonce) ≡ ok u
        → Lineage later u

  create-IsSession :
      (new : NewSession) (nonce : Bytes) (t : StoredToken)
      → IsNonce nonce
      → create c j s start new (ok nonce) ≡ ok t
      → IsSession c j s start start t
  unfolding create
  create-IsSession new nonce t n h = elim (Option-cases new.token) [
    | inl nothing ↦ absurd (ground arith)
    | inr (tok, has) ↦
        (seal_session-IsSession c j s start (session_from new.subject tok start) t nonce n.full
          n.nonce_bytes (rw has at h)).0
  ]

  module _ (v : IsAead c) (m : IsCodec j) (w : IsKeyring s.keyring) where
    found_issued :
        (now mid : Time) (t found : StoredToken)
        → now ≤ mid
        → IsSession c j s start now t
        → get c j s mid t.handle ≡ ok found
        → found.issued_at ≡ start
    found_issued now mid t found le q h =
        let (current, tok, _, e) = read c j s start now mid t v m w le q in ground arith

    refresh-IsSession :
        (later : Time) (found u : StoredToken)
        (exchange : Option OauthToken → Result (Option OauthToken)) (nonce : Bytes)
        → IsNonce nonce
        → refresh c j s later found exchange (ok nonce) ≡ ok u
        → IsSession c j s found.issued_at later u
    unfolding refresh
    refresh-IsSession later found u exchange nonce n h =
        let (tok, _, e) =
          >>=-eq-ok (exchange found.token) (λ tok. exchanged c j s later found (ok nonce) tok)
            (wrapped-eq-ok _ _ h) in
        elim (Option-cases tok) [
          | inl nothing ↦ absurd (ground arith)
          | inr (t, has) ↦
              (seal_session-IsSession c j s later (session_from found.subject t found.issued_at) u
                nonce n.full n.nonce_bytes (rw has at e)).0
        ]

    update-IsSession :
        (now later : Time) (t u : StoredToken) (tok : Option OauthToken) (nonce : Bytes)
        → now ≤ later
        → IsSession c j s start now t
        → IsNonce nonce
        → update c j s later t.handle tok (ok nonce) ≡ ok u
        → IsSession c j s start later u
    unfolding update
    update-IsSession now later t u none nonce le q n h = cc
    update-IsSession now later t u (some tok) nonce le q n h =
        let (found, got, e) =
          >>=-eq-ok (get c j s later t.handle)
            (λ found.
              seal_session c j s later (some (record found { token = some tok })) (ok nonce))
            h in
        subst (λ i. IsSession c j s i later u) (found_issued now later t found le q got)
          (seal_session-IsSession c j s later (record found { token = some tok }) u nonce n.full
            n.nonce_bytes e).0

    Lineage-IsSession : (now : Time) (t : StoredToken) → Lineage now t → IsSession c j s start now t
    unfolding reseal
    Lineage-IsSession now t (login new nonce t' n h) = create-IsSession new nonce t' n h
    Lineage-IsSession now' u (updated now later t u' tok nonce l le n h) =
        update-IsSession now later t u' tok nonce le (Lineage-IsSession now t l) n h
    Lineage-IsSession now' u (resealed now mid later t found u' nonce l le le' got n h) =
        subst (λ i. IsSession c j s i later u')
          (found_issued now mid t found le (Lineage-IsSession now t l) got)
          (seal_session-IsSession c j s later found u' nonce n.full n.nonce_bytes h).0
    Lineage-IsSession now' u (refreshed now mid later t found u' exchange nonce l le le' got n h) =
        subst (λ i. IsSession c j s i later u')
          (found_issued now mid t found le (Lineage-IsSession now t l) got)
          (refresh-IsSession later found u' exchange nonce n h)

-- Over an AEAD, a codec that undoes its own encoding, a keyring that was built and a positive maximum
-- age that fits a duration: a session that descends from a login, however often it has been refreshed, updated or re-sealed,
-- is refused as no session from the login's time plus the maximum age on; before that a read
-- returns it, with the login's time as its beginning and its subject and token as written (the
-- token less its Extra map).
pub get-Lineage :
    (c : Crypto) (j : Codec) (s : CookieTokenStore) (age : ℕ) (start now later : Time)
    (t : StoredToken)
    → IsAead c
    → IsCodec j
    → IsKeyring s.keyring
    → s.max_session_age ≡ pos age
    → 0 < age
    → age < 2 ^ 63
    → Lineage c j s start now t
    → now ≤ later
    → (start + age ≤ later
        → (e : Error) × (get c j s later t.handle ≡ err e) × (is e no_session ≡ true))
      × (later < start + age
          → (stale : Bool) × (tok : OauthToken) × (t.token ≡ some tok)
            × (get c j s later t.handle
                ≡ ok (record {
                  handle = t.handle;
                  subject = t.subject;
                  token = some (without_extra tok);
                  id_token = [];
                  issued_at = start;
                  expires_at = start + age;
                  stale = stale;
                })))
get-Lineage c j s age start now later t v m w fits some_age short l le =
    let q = Lineage-IsSession c j s start v m w now t l in
    let (current, tok, has, e) = read c j s start now later t v m w le q in
    let (to, from) = time_sub-le later start age some_age short in
    (
      λ gone. (
        wrap (lit "the session is past the maximum age" ∷ []) (sentinel no_session),
        ground (arith, e, fits, from gone),
        unfold is in refl,
      ),
      λ alive. (not current, tok, has, ground (arith, e, fits, to)),
    )
