-- ===== src/PgStore/Leases/Exclusion.antt =====
-- The refreshers at work at one time, and the lease that they take.
use howdah.Base.{
  suc, ◌+◌, ◌≤◌, ◌<◌, ◌%◌, ◌^◌, ◌≡◌, ◌≢◌, ◌⊎◌, inl, inr, List, [], ◌∷◌, ◌++◌, true, Option, some,
  All, All-map, AllPairs, AllPairs-map, refl, arith, sym, subst, ==_iff, AllPairs-remove,
  AllPairs-around, All-remove,
}
use howdah.Base.Bytes.{Bytes, bytes_eq}
use howdah.Base.Int.{pos_part}
use howdah.Clock.{Time}
use howdah.Errors.{ok}
use howdah.PgStore.{Conf, interval, validate}
use howdah.PgStore.Rows.{may_take, sql_equal, marked_failed}
use howdah.PgStore.Leases.{
  Refresher, Fleet, window, InTime, taken, rewritten, Step, passes, takes, commits, fails, stops,
  updates, Reachable, here, next,
}
use howdah.PgStore.Leases.Window.{window-lt}

abbrev DifferentNonces : Refresher → Refresher → Type 0
DifferentNonces a b = a.nonce ≢ b.nonce

module _ (c : Conf) where
  -- Two refreshers that are in time do not exchange the token of one payload.
  abbrev pub DifferentTokens : Fleet → Refresher → Refresher → Type 0
  DifferentTokens f a b = InTime c f a → InTime c f b → a.version ≢ b.version

  -- A refresher of the row's payload that is in time is let in by the fence.
  abbrev pub HoldsLease : Fleet → Refresher → Type 0
  HoldsLease f a =
      InTime c f a → a.version ≡ f.version → sql_equal f.row.refresh_lease_nonce a.nonce ≡ true

  -- The refresher has the row's lease, or the row has another payload by now.
  abbrev Owns : Fleet → Refresher → Type 0
  Owns f a =
      (a.version < f.version)
      ⊎ ((a.version ≡ f.version)
          × (f.row.refresh_lease_nonce ≡ some a.nonce)
          × (f.row.refresh_lease_until ≡ some (a.started + interval c.refresh_lease)))

  abbrev OwnsInTime : Fleet → Refresher → Type 0
  OwnsInTime f a = InTime c f a → Owns f a

  record Exclusive (f : Fleet) : Type 0 where
    owns : All (OwnsInTime f) f.active
    tokens : AllPairs (DifferentTokens f) f.active
    nonces : AllPairs DifferentNonces f.active

  module _ (shorter : window c < interval c.refresh_lease) where
    passes-Exclusive :
        (f : Fleet) (later : Time)
        → f.now ≤ later
        → Exclusive f
        → Exclusive (record f { now = later })
    passes-Exclusive f later le x = record {
      owns = All-map (λ a o t. o (omega (arith, le, t))) f.active x.owns;
      tokens =
          AllPairs-map (λ a b d s t. d (omega (arith, le, s)) (omega (arith, le, t))) f.active
            x.tokens;
      nonces = x.nonces;
    }

    -- While a lease can be taken, no refresher of the row's payload is at work and in time.
    not_current :
        (f : Fleet) (seen_refreshed_at : Time) (seen_failed_at : Option Time) (a : Refresher)
        → may_take f.now seen_refreshed_at seen_failed_at f.row ≡ true
        → InTime c f a
        → Owns f a
        → a.version < f.version
    not_current f seen_r seen_f a free t (inl old) = old
    not_current f seen_r seen_f a free t (inr (current, own, until)) =
        absurd (ground (arith, current, own, until, t, shorter))

    takes-Exclusive :
        (f : Fleet) (nonce : Bytes) (seen_refreshed_at : Time) (seen_failed_at : Option Time)
        → All (λ a. a.nonce ≢ nonce) f.active
        → may_take f.now seen_refreshed_at seen_failed_at f.row ≡ true
        → Exclusive f
        → Exclusive (taken c f nonce)
    takes-Exclusive f nonce seen_r seen_f fresh free x =
        let old : All (λ a. InTime c f a → a.version < f.version) f.active =
          All-map (λ a o t. not_current f seen_r seen_f a free t (o t)) f.active x.owns in
        record {
          owns = ((λ t. inr (refl, refl, refl)), All-map (λ a l t. inl (l t)) f.active old);
          tokens = (All-map (λ a l s t e. omega (arith, l t, e)) f.active old, x.tokens);
          nonces = (All-map (λ a n e. n (sym e)) f.active fresh, x.nonces);
        }

    -- A rewritten row has another payload than every refresher's that is in time.
    Owns-rewritten : (f : Fleet) (a : Refresher) → Owns f a → a.version < suc f.version
    Owns-rewritten f a (inl l) = omega arith
    Owns-rewritten f a (inr (e, own, until)) = omega arith

    rewritten-Exclusive :
        (f : Fleet) (key_id payload : Bytes) (access_expires_at : Time)
        → Exclusive f
        → Exclusive (rewritten c f key_id payload access_expires_at f.active)
    rewritten-Exclusive f key_id payload access_expires_at x = record {
      owns = All-map (λ a o t. inl (Owns-rewritten f a (o t))) f.active x.owns;
      tokens = x.tokens;
      nonces = x.nonces;
    }

    stops-Exclusive :
        (f : Fleet) (before after : List Refresher) (a : Refresher)
        → f.active ≡ before ++ a ∷ after
        → Exclusive f
        → Exclusive (record f { active = before ++ after })
    stops-Exclusive f before after a e x = record {
      owns = All-remove (OwnsInTime f) before after a (subst (All (OwnsInTime f)) e x.owns);
      tokens =
          AllPairs-remove (DifferentTokens f) before after a
            (subst (AllPairs (DifferentTokens f)) e x.tokens);
      nonces =
          AllPairs-remove DifferentNonces before after a
            (subst (AllPairs DifferentNonces) e x.nonces);
    }

    -- The refreshers beside the one that holds the lease are of older payloads.
    other_old :
        (f : Fleet) (nonce : Bytes) (b : Refresher)
        → sql_equal f.row.refresh_lease_nonce nonce ≡ true
        → nonce ≢ b.nonce
        → Owns f b
        → b.version < f.version
    other_old f nonce b held n (inl l) = l
    other_old f nonce b held n (inr (e, own, until)) =
        absurd (n (sym ((==_iff b.nonce nonce).0 (rw own at held))))

    others_old :
        (f : Fleet) (nonce : Bytes) (others : List Refresher)
        → sql_equal f.row.refresh_lease_nonce nonce ≡ true
        → All (OwnsInTime f) others
        → All (λ b. nonce ≢ b.nonce) others
        → All (λ b. InTime c f b → b.version < f.version) others
    others_old f nonce [] held o n = tt
    others_old f nonce (b ∷ others) held (o, os) (n, ns) =
        ((λ t. other_old f nonce b held n (o t)), others_old f nonce others held os ns)

    fails-Exclusive :
        (f : Fleet) (before after : List Refresher) (a : Refresher)
        → f.active ≡ before ++ a ∷ after
        → sql_equal f.row.refresh_lease_nonce a.nonce ≡ true
        → Exclusive f
        → Exclusive (record f { row = marked_failed f.now f.row; active = before ++ after })
    fails-Exclusive f before after a e held x =
        let y = stops-Exclusive f before after a e x in
        let around =
          AllPairs-around DifferentNonces before after a (λ p q n h. n (sym h))
            (subst (AllPairs DifferentNonces) e x.nonces) in
        record {
          owns =
              All-map (λ b l t. inl (l t)) (before ++ after)
                (others_old f a.nonce (before ++ after) held y.owns around);
          tokens = y.tokens;
          nonces = y.nonces;
        }

    Step-Exclusive : (f g : Fleet) → Step c f g → Exclusive f → Exclusive g
    Step-Exclusive f g (passes f' later le) x = passes-Exclusive f later le x
    Step-Exclusive f g (takes f' nonce seen_r seen_f fresh free) x =
        takes-Exclusive f nonce seen_r seen_f fresh free x
    Step-Exclusive f g (commits f' before after a key_id payload expires e held) x =
        rewritten-Exclusive (record f { active = before ++ after }) key_id payload expires
          (stops-Exclusive f before after a e x)
    Step-Exclusive f g (fails f' before after a e held) x =
        fails-Exclusive f before after a e held x
    Step-Exclusive f g (stops f' before after a e) x = stops-Exclusive f before after a e x
    Step-Exclusive f g (updates f' key_id payload expires) x =
        rewritten-Exclusive f key_id payload expires x

    Reachable-Exclusive : (start f : Fleet) → Exclusive start → Reachable c start f → Exclusive f
    Reachable-Exclusive start f x here = x
    Reachable-Exclusive start f x (next g f' r step) =
        Step-Exclusive g f step (Reachable-Exclusive start g x r)

holder :
    (c : Conf) (f : Fleet) (a : Refresher)
    → Owns c f a
    → a.version ≡ f.version
    → sql_equal f.row.refresh_lease_nonce a.nonce ≡ true
holder c f a (inl l) e = absurd (omega arith)
holder c f a (inr (_, own, until)) e = rw own ((==_iff a.nonce a.nonce).1 refl)

-- Under a configuration that `validate` accepts, whose two timeouts together are within the int64
-- range and whose lease is whole microseconds, from a session that no request is refreshing, whatever
-- steps the refreshers and other writers of the fleet take in whatever order: of the refreshers that
-- were granted their lease no longer ago than the two timeouts, by the database's clock, no two are
-- exchanging the refresh token of the same payload, and one whose payload is still in the row holds
-- the row's lease, so that the fence lets its result in. Nothing is said of a refresher that is at
-- work for longer.
pub Reachable-exclusive :
    (c : Conf) (start f : Fleet)
    → validate c ≡ ok tt
    → window c < 2 ^ 63
    → pos_part c.refresh_lease % 1000 ≡ 0
    → start.active ≡ []
    → Reachable c start f
    → AllPairs (DifferentTokens c f) f.active × All (HoldsLease c f) f.active
Reachable-exclusive c start f valid short whole idle r =
    let nobody : Exclusive c start = record {
      owns = rw idle tt;
      tokens = rw idle tt;
      nonces = rw idle tt;
    } in
    let x = Reachable-Exclusive c (window-lt c valid short whole) start f nobody r in
    (x.tokens, All-map (λ a o t. holder c f a (o t)) f.active x.owns)
