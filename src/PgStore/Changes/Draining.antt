-- ===== src/PgStore/Changes/Draining.antt =====
-- Sweeps that are repeated until one removes nothing, as the comment on `DeleteExpired` has it.
use howdah.Base.{
  ℕ, suc, zero, ◌+◌, ◌<◌, ◌≡◌, ◌≢◌, ◌⊎◌, ◌↔◌, List, [], ◌∷◌, Bool, true, false, not, ◌&&◌, none,
  refl, arith, length, take, Bool-cases, inl, inr, sym, ◌∙◌, ==_iff, In, leb, ap, subst,
}
use howdah.Base.Bytes.{bytes_eq}
use howdah.Base.Int.{ℤ}
use howdah.Clock.{Time}
use howdah.Errors.{Result, ok, err}
use howdah.PgStore.Rows.{
  Row, Table, delete_where, delete_expired_sessions, expired_rows, insert_row, has_id,
  expires_first,
}
use howdah.PgStore.Changes.{delete_expired, batch_size}
use howdah.PgStore.Changes.Sweeping.{
  IsKeyed, In-expired_rows, In-delete_where_rev, delete_expired-table, delete_expired-In,
}

delete_where-length :
    (p : Row → Bool) (table : Table)
    → length (delete_where p table).0 + (delete_where p table).1 ≡ length table
unfolding delete_where
delete_where-length p [] = refl
delete_where-length p (row ∷ table) = ground (arith, delete_where-length p table)

delete_where-some :
    (p : Row → Bool) (row : Row) (table : Table)
    → In row table
    → p row ≡ true
    → 0 < (delete_where p table).1
unfolding delete_where
delete_where-some p row [] i h = elim i [ ]
delete_where-some p row (other ∷ table) (inl e) h =
    let goes : p other ≡ true = ap p (sym e) ∙ h in rw goes (omega arith)
delete_where-some p row (other ∷ table) (inr i) h = elim (Bool-cases (p other)) [
  | inl goes ↦ rw goes (omega arith)
  | inr stays ↦ rw stays (delete_where-some p row table i h)
]

insert_row-some : (row : Row) (rows : List Row) → insert_row row rows ≢ []
unfolding insert_row
insert_row-some row [] h = cc
insert_row-some row (other ∷ rows) h = elim (Bool-cases (expires_first other row)) [
  | inl first ↦ cc (rw first at h)
  | inr later ↦ cc (rw later at h)
]

-- A row that no sweep at this time may remove.
abbrev pub Stays : (Row → Bool) → Time → Row → Type 0
Stays locked now row = (now < row.expires_at) ⊎ (locked row ≡ true)

expired_rows-Stays :
    (locked : Row → Bool) (now : Time) (table : Table)
    → expired_rows locked now table ≡ []
    → (row : Row) → In row table
    → Stays locked now row
unfolding expired_rows
expired_rows-Stays locked now [] h row i = elim i [ ]
expired_rows-Stays locked now (other ∷ table) h row i =
    elim (Bool-cases (leb other.expires_at now && not (locked other))) [
      | inl goes ↦ absurd (insert_row-some other (expired_rows locked now table) (rw goes at h))
      | inr kept ↦ elim i [
        | inr j ↦ expired_rows-Stays locked now table (rw kept at h) row j
        | inl e ↦ subst (Stays locked now) (sym e) (elim (Bool-cases (locked other)) [
          | inl held ↦ inr held
          | inr free ↦ inl (ground (arith, kept, free))
        ])
      ]
    ]

rows-cases :
    (rows : List Row) → (rows ≡ []) ⊎ ((first : Row) × (rest : List Row) × (rows ≡ first ∷ rest))
rows-cases [] = inl refl
rows-cases (first ∷ rest) = inr (first, rest, refl)

-- What a caller does with the answer of a sweep.
abbrev drained : (Table → Table × Bool) → Table × Result ℕ → Table × Bool
drained again (after, err e) = (after, false)
drained again (after, ok zero) = (after, true)
drained again (after, ok (suc n)) = again after

module _ (locked : Row → Bool) (now : Time) (batch : ℤ) (size : ℕ)
    (fits : batch_size batch ≡ ok (suc size)) where
  delete_expired-run :
      (table : Table)
      → delete_expired locked now none batch table ≡ (
        (delete_where (has_id (take (suc size) (expired_rows locked now table))) table).0,
        ok (delete_where (has_id (take (suc size) (expired_rows locked now table))) table).1,
      )
  unfolding delete_expired delete_expired_sessions
  delete_expired-run table = ground (arith, fits)

  abbrev chosen : Table → Row → Bool
  chosen table = has_id (take (suc size) (expired_rows locked now table))

  -- A sweep that removes nothing has nothing to remove.
  none_chosen :
      (table : Table) (row : Row)
      → (delete_where (chosen table) table).1 ≡ 0
      → In row table
      → Stays locked now row
  none_chosen table row none_gone i = elim (rows-cases (expired_rows locked now table)) [
    | inl done ↦ expired_rows-Stays locked now table done row i
    | inr (first, rest, some_left) ↦
        let (here, _) = In-expired_rows locked now first table (rw some_left (inl refl)) in
        let picked : chosen table first ≡ true =
          rw some_left (rw ((==_iff first.id first.id).1 refl) refl) in
        absurd (omega (arith, none_gone, delete_where-some (chosen table) first table here picked))
  ]

  -- The sweeps of one caller, at one time: until one removes nothing, with whether one did.
  unfoldable pub drain : ℕ → Table → Table × Bool
  unfolding delete_expired
  drain zero table = (table, false)
  drain (suc fuel) table = drained (drain fuel) (delete_expired locked now none batch table)

  -- The rows after one sweep: those that may not be swept, and some of the others.
  sweep-In :
      (table : Table) (row : Row)
      → IsKeyed table
      → (In row table → Stays locked now row → In row (delete_where (chosen table) table).0)
        × (In row (delete_where (chosen table) table).0 → In row table)
  sweep-In table row keyed =
      let (keeps, from) = delete_expired-In locked now batch table row keyed in
      let same = delete_expired-table locked now (suc size) batch table fits in
      (λ i stays. rw same at (keeps i stays), λ i. In-delete_where_rev (chosen table) row table i)

  -- Sweeping has ended, and has left those rows of the table that may not be swept.
  abbrev pub IsDrained : Table → Table × Bool → Type 0
  IsDrained table result =
      (result.1 ≡ true) × ((row : Row) → In row result.0 ↔ (In row table × Stays locked now row))

  drained-IsDrained :
      (again : Table → Table × Bool) (table after : Table) (n : ℕ)
      → (n ≡ 0 → (row : Row) → In row table → Stays locked now row)
      → ((row : Row)
          → (In row table → Stays locked now row → In row after) × (In row after → In row table))
      → (0 < n → IsDrained after (again after))
      → IsDrained table (drained again (after, ok n))
  drained-IsDrained again table after zero none_left kept next = (
    refl,
    λ row. (
      λ i. let j = (kept row).1 i in (j, none_left refl row j),
      λ (j, stays). (kept row).0 j stays,
    ),
  )
  drained-IsDrained again table after (suc n) none_left kept next =
      let (ended, left) = next (omega arith) in
      (
        ended,
        λ row. (
          λ i. let (j, stays) = (left row).0 i in ((kept row).1 j, stays),
          λ (j, stays). (left row).1 ((kept row).0 j stays, stays),
        ),
      )

  -- Where ids are distinct and the batch size is accepted: the sweeps of a caller that calls
  -- `DeleteExpired` until it removes nothing come to an end, after at most one sweep more than there
  -- are rows. What is left then are the rows that have not reached their expiry and those that
  -- another transaction has locked, so with no other sweeper the table has no expired row.
  pub drain-IsDrained :
      (fuel : ℕ) (table : Table)
      → IsKeyed table
      → length table < fuel
      → IsDrained table (drain fuel table)
  unfolding drain
  drain-IsDrained zero table keyed enough = absurd (omega arith)
  drain-IsDrained (suc fuel) table keyed enough =
      let after = (delete_where (chosen table) table).0 in
      rw (delete_expired-run table) (
        drained-IsDrained (drain fuel) table after (delete_where (chosen table) table).1
          (λ done row i. none_chosen table row done i) (λ row. sweep-In table row keyed)
          λ some_gone.
            drain-IsDrained fuel after
              (λ x y i k same.
                keyed x y (In-delete_where_rev (chosen table) x table i)
                  (In-delete_where_rev (chosen table) y table k) same)
              (omega (arith, delete_where-length (chosen table) table)))
