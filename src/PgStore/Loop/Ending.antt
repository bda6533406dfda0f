-- ===== src/PgStore/Loop/Ending.antt =====
-- The deadline of a call of `Refresh` in pgstore ends its loop.
use howdah.Base.{
  ◌≤◌, ◌≡◌, List, [], ◌∷◌, true, false, not, ◌&&◌, some, refl, arith, Bool-cases, Option-cases, inl,
  inr, ◌⊎◌, All, subst, sym, ◌==◌, nat_eq, ◌∙◌, ap,
}
use howdah.Base.Bytes.{Bytes}
use howdah.Clock.{Time, before, after, time_sub}
use howdah.Base.Int.{int_ltb}
use howdah.Crypto.{Crypto}
use howdah.Errors.{Error, Result, ok, err, is, lease_lost, sentinel, refresh_timeout, Result-cases}
use howdah.Session.{OauthToken, StoredToken}
use howdah.PgStore.{PgStore, RowCodec, RowPayload, open_row}
use howdah.PgStore.Rows.{Row}
use howdah.PgStore.Store.{live}
use howdah.PgStore.Refresh.{
  Pass, LoopState, done, again, run_exchange, ask, seen_by, examine, spent, refresh_pass,
  refresh_loop, advanced,
}
use howdah.PgStore.Loop.{refresh_loop-again, refresh_loop-done, Outcome-cases}

module _ (c : Crypto) (j : RowCodec) (s : PgStore) (t : StoredToken) (id : Bytes) where
  -- No pass of the call loses a lease that it was granted.
  abbrev pub Keeps : Pass → Type 0
  Keeps p =
      (lease : Row) (e : Error)
      → p.lease ≡ ok (some lease)
      → (run_exchange c j s t id p lease).1 ≡ err e
      → is e lease_lost ≡ false

  -- Some of the passes finds the deadline passed.
  abbrev pub EndsBy : Time → List Pass → Type 0
  EndsBy deadline [] = ⊥
  EndsBy deadline (p ∷ rest) = (deadline ≤ p.now) ⊎ EndsBy deadline rest

  abbrev Left : LoopState → LoopState → Type 0
  Left st next =
      (next.first ≡ st.first)
      × (next.lost_write_reads ≡ st.lost_write_reads)
      × (next.deadline ≡ st.deadline)

  ask_goes_on :
      (st next : LoopState) (p : Pass)
      → Keeps p
      → (ask c j s t id st p).1 ≡ again next
      → Left st next
  ask_goes_on st next p keeps h = elim (Result-cases p.nonce) [
    | inr (e, failed) ↦ absurd (ground arith)
    | inl (nonce, random) ↦ elim (Result-cases p.lease) [
      | inr (e, failed) ↦ absurd (ground arith)
      | inl (some_lease, answered) ↦ elim (Option-cases some_lease) [
        | inl nobody ↦ elim (Result-cases p.waited) [
          | inr (e, failed) ↦ absurd (ground arith)
          | inl (u, waits) ↦ ground arith
        ]
        | inr (lease, granted) ↦ elim (Result-cases (run_exchange c j s t id p lease).1) [
          | inl (session, got) ↦ absurd (ground arith)
          | inr (e, failed) ↦
              absurd (ground (arith, keeps lease e (answered ∙ ap ok granted) failed))
        ]
      ]
    ]
  ]

  examine_goes_on :
      (st next : LoopState) (p : Pass) (row : Row) (opened : RowPayload × OauthToken)
      → Keeps p
      → (examine c j s t id st p row opened).1 ≡ again next
      → (next.first ≡ false)
        × (next.lost_write_reads ≡ st.lost_write_reads)
        × (next.deadline ≡ st.deadline)
  examine_goes_on st next p row (payload, tok) keeps h = elim (Bool-cases st.first) [
    | inl start ↦
        elim (Bool-cases (int_ltb s.conf.refresh_margin (time_sub tok.expiry p.until_at))) [
          | inl fresh ↦ absurd (ground (arith, start, fresh, h))
          | inr dying ↦
              ask_goes_on (seen_by c j s t id st row) next p keeps (rw (start, dying) at h)
        ]
    | inr later ↦ elim (Bool-cases (after row.refreshed_at st.seen_refreshed_at)) [
      | inl moved ↦ absurd (ground (arith, later, moved, h))
      | inr still ↦ elim (Bool-cases (advanced row.refresh_failed_at st.seen_failed_at)) [
        | inl failed ↦ absurd (ground (arith, later, still, failed, h))
        | inr same ↦
            ask_goes_on (record st { first = false }) next p keeps (rw (later, still, same) at h)
      ]
    ]
  ]

  -- What a pass that goes on leaves.
  pass_goes_on :
      (st next : LoopState) (p : Pass)
      → Keeps p
      → st.lost_write_reads ≡ 0
      → (refresh_pass c j s t id st p).1 ≡ again next
      → (next.first ≡ false) × (next.lost_write_reads ≡ 0) × (next.deadline ≡ st.deadline)
  unfolding refresh_pass
  pass_goes_on st next p keeps none_lost h =
      elim (Bool-cases
        (not st.first && st.lost_write_reads == 0 && not (before p.now st.deadline))) [
          | inl late ↦ absurd (cc (rw late at h))
          | inr in_time ↦ elim (Result-cases (live p.db_now p.read)) [
            | inr (e, failed) ↦ absurd (cc (rw (in_time, failed) at h))
            | inl (row, alive) ↦ elim (Result-cases (open_row c j s p.opened_at id row.payload)) [
              | inr (e, failed) ↦ absurd (cc (rw (in_time, alive, failed) at h))
              | inl (opened, opens) ↦
                  let (f, l, d) =
                    examine_goes_on (spent c j s t id st) next p row opened keeps
                      (rw (in_time, alive, opens) at h) in
                  (f, omega (arith, l, none_lost), d)
            ]
          ]
        ]

  past_deadline :
      (st : LoopState) (p : Pass)
      → st.first ≡ false
      → st.lost_write_reads ≡ 0
      → st.deadline ≤ p.now
      → (refresh_pass c j s t id st p).1 ≡ done (err (sentinel refresh_timeout))
  unfolding refresh_pass
  past_deadline st p later none_lost late =
      let over : (not st.first && st.lost_write_reads == 0 && not (before p.now st.deadline))
          ≡ true =
        ground (arith, later, none_lost, late) in
      rw over refl

  loop_ends :
      (st : LoopState) (rest : List Pass)
      → EndsBy st.deadline rest
      → All Keeps rest
      → st.first ≡ false
      → st.lost_write_reads ≡ 0
      → (r : Result StoredToken) × ((refresh_loop c j s t id st rest).1 ≡ done r)
  loop_ends st [] ends keeps later none_lost = absurd ends
  loop_ends st (p ∷ rest) (inl late) keeps later none_lost = (
    err (sentinel refresh_timeout),
    ap (λ o. o.1)
        (refresh_loop-done c j s t id st (err (sentinel refresh_timeout)) p rest
          (past_deadline st p later none_lost late)),
  )
  loop_ends st (p ∷ rest) (inr ends) (keep, keeps) later none_lost =
      elim (Outcome-cases (refresh_pass c j s t id st p).1) [
        | inl (r, over) ↦ (r, ap (λ o. o.1) (refresh_loop-done c j s t id st r p rest over))
        | inr (next, goes_on) ↦
            let (f, l, d) = pass_goes_on st next p keep none_lost goes_on in
            let (r, over) =
              loop_ends next rest (subst (λ e. EndsBy e rest) (sym d) ends) keeps f l in
            (r, ap (λ o. o.1) (refresh_loop-again c j s t id st next p rest goes_on) ∙ over)
      ]

  -- A call that loses no lease it was granted ends: once a pass after the first one finds the
  -- deadline passed, the call has a result, whatever the passes before it found.
  pub refresh_loop-ends :
      (st : LoopState) (p : Pass) (rest : List Pass)
      → Keeps p
      → All Keeps rest
      → st.lost_write_reads ≡ 0
      → EndsBy st.deadline rest
      → (r : Result StoredToken) × ((refresh_loop c j s t id st (p ∷ rest)).1 ≡ done r)
  refresh_loop-ends st p rest keep keeps none_lost ends =
      elim (Outcome-cases (refresh_pass c j s t id st p).1) [
        | inl (r, over) ↦ (r, ap (λ o. o.1) (refresh_loop-done c j s t id st r p rest over))
        | inr (next, goes_on) ↦
            let (f, l, d) = pass_goes_on st next p keep none_lost goes_on in
            let (r, over) =
              loop_ends next rest (subst (λ e. EndsBy e rest) (sym d) ends) keeps f l in
            (r, ap (λ o. o.1) (refresh_loop-again c j s t id st next p rest goes_on) ∙ over)
      ]
