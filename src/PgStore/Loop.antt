-- ===== src/PgStore/Loop.antt =====
-- The loop of `Refresh` pass by pass, and the call that goes on and on.
pub mod Ending
pub mod Posting
use howdah.Base.{
  ℕ, suc, zero, ◌+◌, ◌-◌, ◌≤◌, ◌≡◌, ◌≢◌, List, [], ◌∷◌, ◌++◌, true, false, not, ◌&&◌, Option, some,
  refl, arith, Bool-cases, Option-cases, inl, inr, ◌⊎◌, All, min, subst, sym, ◌==◌, nat_eq, ◌∙◌, ap,
}
use howdah.Base.Bytes.{Bytes}
use howdah.Clock.{Time, before, after, time_sub}
use howdah.Base.Int.{int_ltb}
use howdah.Crypto.{Crypto}
use howdah.Errors.{Error, Result, ok, err, is, lease_lost, sentinel, refresh_timeout, Result-cases}
use howdah.Session.{OauthToken, StoredToken}
use howdah.PgStore.{PgStore, RowCodec, RowPayload, open_row}
use howdah.PgStore.Rows.{Row}
use howdah.PgStore.Store.{live}
use howdah.PgStore.Refresh.{
  Pass, LoopState, Outcome, done, again, run_exchange, ask, seen_by, examine, spent, refresh_pass,
  refresh_loop, advanced,
}

abbrev pub passes : ℕ → Pass → List Pass
passes zero p = []
passes (suc n) p = p ∷ passes n p

pub Outcome-cases :
    (o : Outcome) → ((r : Result StoredToken) × (o ≡ done r)) ⊎ ((u : LoopState) × (o ≡ again u))
Outcome-cases (done r) = inl (r, refl)
Outcome-cases (again u) = inr (u, refl)

module _ (c : Crypto) (j : RowCodec) (s : PgStore) (t : StoredToken) (id : Bytes) where
  pub refresh_loop-again :
      (st next : LoopState) (p : Pass) (rest : List Pass)
      → (refresh_pass c j s t id st p).1 ≡ again next
      → refresh_loop c j s t id st (p ∷ rest) ≡ (
        (refresh_pass c j s t id st p).0 ++ (refresh_loop c j s t id next rest).0,
        (refresh_loop c j s t id next rest).1,
      )
  unfolding refresh_loop
  refresh_loop-again st next p rest h = ground (arith, h)

  pub refresh_loop-done :
      (st : LoopState) (r : Result StoredToken) (p : Pass) (rest : List Pass)
      → (refresh_pass c j s t id st p).1 ≡ done r
      → refresh_loop c j s t id st (p ∷ rest) ≡ ((refresh_pass c j s t id st p).0, done r)
  unfolding refresh_loop
  refresh_loop-done st r p rest h = ground (arith, h)

  module _ (p : Pass) (row lease : Row) (opened : RowPayload × OauthToken) (e : Error)
      (nonce : Bytes) (alive : live p.db_now p.read ≡ ok row)
      (opens : open_row c j s p.opened_at id row.payload ≡ ok opened) (random : p.nonce ≡ ok nonce)
      (granted : p.lease ≡ ok (some lease)) (lost : (run_exchange c j s t id p lease).1 ≡ err e)
      (fenced : is e lease_lost ≡ true) where
    one_more :
        (u : LoopState)
        → u.first ≡ false
        → 1 ≤ u.lost_write_reads
        → after row.refreshed_at u.seen_refreshed_at ≡ false
        → advanced row.refresh_failed_at u.seen_failed_at ≡ false
        → (refresh_pass c j s t id u p).1
          ≡ again (record u { lost_write_reads = min (u.lost_write_reads - 1 + 1) 2 })
    unfolding refresh_pass
    one_more u later some_reads same_refresh same_failure =
        let reads_left : (u.lost_write_reads == 0) ≡ false = ground arith in
        rw
          (
            later, reads_left, alive, opens, same_refresh, same_failure, random, granted, lost,
            fenced,
          )
          refl

    -- A call whose leases are lost again and again does not end, however many passes it makes and
    -- however long its deadline has passed: each lost write-back buys the next pass. (Every pass finds
    -- the row as it was first seen, is granted the lease, and finds its write fenced out.)
    pub refresh_loop-unending :
        (n : ℕ) (u : LoopState)
        → u.first ≡ false
        → 1 ≤ u.lost_write_reads
        → after row.refreshed_at u.seen_refreshed_at ≡ false
        → advanced row.refresh_failed_at u.seen_failed_at ≡ false
        → (v : LoopState) × ((refresh_loop c j s t id u (passes n p)).1 ≡ again v)
    refresh_loop-unending zero u later some_reads same_refresh same_failure =
        (u, unfold refresh_loop in refl)
    refresh_loop-unending (suc n) u later some_reads same_refresh same_failure =
        let next = record u { lost_write_reads = min (u.lost_write_reads - 1 + 1) 2 } in
        let (v, goes_on) =
          refresh_loop-unending n next later (omega arith) same_refresh same_failure in
        (
          v,
          ap (λ o. o.1)
                (refresh_loop-again u next p (passes n p)
                  (one_more u later some_reads same_refresh same_failure))
              ∙ goes_on,
        )
