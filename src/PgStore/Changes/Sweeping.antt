-- ===== src/PgStore/Changes/Sweeping.antt =====
-- The sweep of expired rows, `DeleteExpired`.
use howdah.Base.{
  ℕ, suc, zero, ◌≤◌, ◌<◌, ◌≡◌, ◌⊎◌, List, [], ◌∷◌, Bool, true, false, not, ◌&&◌, none, refl, arith,
  take, Bool-cases, inl, inr, sym, subst, ◌∙◌, ==_iff, ◌==◌, In, leb, ap,
}
use howdah.Base.Bytes.{bytes_eq}
use howdah.Base.Int.{ℤ}
use howdah.Clock.{Time}
use howdah.Errors.{Error, ok, err, Result-cases}
use howdah.PgStore.Rows.{
  Row, Table, delete_where, delete_expired_sessions, expired_rows, insert_row, has_id,
  expires_first,
}
use howdah.PgStore.Changes.{delete_expired, batch_size}

-- An id is one row's, as the primary key has it.
abbrev pub IsKeyed : Table → Type 0
IsKeyed table = (a b : Row) → In a table → In b table → a.id ≡ b.id → a ≡ b

In-take : (n : ℕ) (o : Row) (rows : List Row) → In o (take n rows) → In o rows
In-take zero o rows i = elim i [ ]
In-take (suc n) o [] i = i
In-take (suc n) o (row ∷ rows) (inl e) = inl e
In-take (suc n) o (row ∷ rows) (inr i) = inr (In-take n o rows i)

In-insert_row : (o row : Row) (rows : List Row) → In o (insert_row row rows) → (o ≡ row) ⊎ In o rows
unfolding insert_row
In-insert_row o row [] i = i
In-insert_row o row (other ∷ rows) i = elim (Bool-cases (expires_first other row)) [
  | inr first ↦ rw first at i
  | inl later ↦ elim (rw later at i) [
    | inl e ↦ inr (inl e)
    | inr j ↦ elim (In-insert_row o row rows j) [ inl e ↦ inl e | inr k ↦ inr (inr k) ]
  ]
]

-- A row that may be swept: past its expiry, and not locked.
abbrev Sweepable : (Row → Bool) → Time → Row → Type 0
Sweepable locked now o = (o.expires_at ≤ now) × (locked o ≡ false)

pub In-expired_rows :
    (locked : Row → Bool) (now : Time) (o : Row) (table : Table)
    → In o (expired_rows locked now table)
    → In o table × Sweepable locked now o
unfolding expired_rows
In-expired_rows locked now o [] i = elim i [ ]
In-expired_rows locked now o (row ∷ table) i =
    elim (Bool-cases (leb row.expires_at now && not (locked row))) [
      | inr stays ↦ let (j, s) = In-expired_rows locked now o table (rw stays at i) in (inr j, s)
      | inl swept_row ↦
          let may : Sweepable locked now row = ground (arith, Bool-cases (locked row)) in
          elim (In-insert_row o row (expired_rows locked now table) (rw swept_row at i)) [
            | inl e ↦ (inl e, subst (Sweepable locked now) (sym e) may)
            | inr j ↦ let (k, s) = In-expired_rows locked now o table j in (inr k, s)
          ]
    ]

has_id-In :
    (rows : List Row) (row : Row) → has_id rows row ≡ true → (o : Row) × In o rows × (o.id ≡ row.id)
has_id-In [] row h = cc
has_id-In (other ∷ rows) row h = elim (Bool-cases (other.id == row.id)) [
  | inl same ↦ (other, inl refl, (==_iff other.id row.id).0 same)
  | inr differs ↦ let (o, i, e) = has_id-In rows row (rw differs at h) in (o, inr i, e)
]

In-delete_where :
    (p : Row → Bool) (row : Row) (table : Table)
    → In row table
    → p row ≡ false
    → In row (delete_where p table).0
unfolding delete_where
In-delete_where p row [] i h = i
In-delete_where p row (other ∷ table) (inl e) h =
    let stays : p other ≡ false = ap p (sym e) ∙ h in rw stays (inl e)
In-delete_where p row (other ∷ table) (inr i) h = elim (Bool-cases (p other)) [
  | inl goes ↦ rw goes (In-delete_where p row table i h)
  | inr stays ↦ rw stays (inr (In-delete_where p row table i h))
]

pub In-delete_where_rev :
    (p : Row → Bool) (row : Row) (table : Table) → In row (delete_where p table).0 → In row table
unfolding delete_where
In-delete_where_rev p row [] i = i
In-delete_where_rev p row (other ∷ table) i = elim (Bool-cases (p other)) [
  | inl goes ↦ inr (In-delete_where_rev p row table (rw goes at i))
  | inr stays ↦ elim (rw stays at i) [
    | inl e ↦ inl e
    | inr j ↦ inr (In-delete_where_rev p row table j)
  ]
]

pub delete_expired-table :
    (locked : Row → Bool) (db_now size : Time) (batch : ℤ) (table : Table)
    → batch_size batch ≡ ok size
    → (delete_expired locked db_now none batch table).0
      ≡ (delete_where (has_id (take size (expired_rows locked db_now table))) table).0
unfolding delete_expired delete_expired_sessions
delete_expired-table locked db_now size batch table h = ground (arith, h)

delete_expired-refused :
    (locked : Row → Bool) (db_now : Time) (batch : ℤ) (table : Table) (e : Error)
    → batch_size batch ≡ err e
    → (delete_expired locked db_now none batch table).0 ≡ table
unfolding delete_expired
delete_expired-refused locked db_now batch table e h = ground (arith, h)

not_chosen :
    (locked : Row → Bool) (db_now : Time) (size : ℕ) (table : Table) (row : Row)
    → IsKeyed table
    → In row table
    → (db_now < row.expires_at) ⊎ (locked row ≡ true)
    → has_id (take size (expired_rows locked db_now table)) row ≡ false
not_chosen locked db_now size table row keyed i stays =
    elim (Bool-cases (has_id (take size (expired_rows locked db_now table)) row)) [
      | inr out ↦ out
      | inl chosen ↦
          let (o, j, same) = has_id-In (take size (expired_rows locked db_now table)) row chosen in
          let (k, (over, free)) =
            In-expired_rows locked db_now o table
              (In-take size o (expired_rows locked db_now table) j) in
          let e : o ≡ row = keyed o row k i same in
          elim stays [
            | inl alive ↦ absurd (omega (arith, alive, over, ap (λ r. r.expires_at) e))
            | inr held ↦ absurd (cc (ap locked e, held, free))
          ]
    ]

-- In a table where an id is one row's, a sweep of any batch size removes no row that has not reached
-- its expiry and none that another transaction has locked, and it adds no row.
pub delete_expired-In :
    (locked : Row → Bool) (db_now : Time) (batch : ℤ) (table : Table) (row : Row)
    → IsKeyed table
    → (In row table
        → (db_now < row.expires_at) ⊎ (locked row ≡ true)
        → In row (delete_expired locked db_now none batch table).0)
      × (In row (delete_expired locked db_now none batch table).0 → In row table)
delete_expired-In locked db_now batch table row keyed = elim (Result-cases (batch_size batch)) [
  | inr (e, refused) ↦
      let same = delete_expired-refused locked db_now batch table e refused in
      (λ i stays. rw same i, λ i. rw same at i)
  | inl (size, accepted) ↦
      let same = delete_expired-table locked db_now size batch table accepted in
      let chosen = has_id (take size (expired_rows locked db_now table)) in
      (
        λ i stays. rw same (
            In-delete_where chosen row table i
              (not_chosen locked db_now size table row keyed i stays)),
        λ i. In-delete_where_rev chosen row table (rw same at i),
      )
]
