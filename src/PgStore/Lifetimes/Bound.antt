-- ===== src/PgStore/Lifetimes/Bound.antt =====
-- What a read of the table tells of a session's absolute lifetime.
use howdah.Base.{
  ◌+◌, ◌≡◌, ◌<◌, [], ◌∷◌, Bool, Option, some, arith, inl, inr, AllPairs, All-In, In, sym, ap, ◌∙◌,
}
use howdah.Base.Bytes.{Bytes, bytes_eq}
use howdah.Clock.{Time}
use howdah.Crypto.{Crypto}
use howdah.Errors.{Error, ok, >>=-eq-ok}
use howdah.Session.{StoredToken}
use howdah.PgStore.{PgStore, RowCodec, row_id, open_row}
use howdah.PgStore.Rows.{Row, Table, get_session}
use howdah.PgStore.Rows.Keeping.{Apart, Lasts, get_session-In, get_session-id}
use howdah.PgStore.Store.{get, live, faulted}
use howdah.PgStore.Changes.Removing.{row_id-stable}
use howdah.PgStore.Lifetimes.{Operation, run, Reachable, age}
use howdah.PgStore.Lifetimes.Keeping.{run-Kept, Reachable-Kept}

-- Rows apart that have one id are the same.
same_row :
    (table : Table) (a b : Row)
    → AllPairs Apart table
    → In a table
    → In b table
    → a.id ≡ b.id
    → a ≡ b
same_row [] a b h i k e = elim i [ ]
same_row (row ∷ table) a b (q, h) (inl i) (inl k) e = i ∙ sym k
same_row (row ∷ table) a b (q, h) (inl i) (inr k) e =
    absurd (All-In (Apart row) b table q k (ap (λ r. r.id) (sym i) ∙ e))
same_row (row ∷ table) a b (q, h) (inr i) (inl k) e =
    absurd (All-In (Apart row) a table q i (ap (λ r. r.id) (sym k) ∙ sym e))
same_row (row ∷ table) a b (q, h) (inr i) (inr k) e = same_row table a b h i k e

live-ok :
    (db_now : Time) (fault : Option Error) (found : Option Row) (row : Row)
    → live db_now (faulted fault found) ≡ ok row
    → (found ≡ some row) × (db_now < row.expires_at)
live-ok db_now fault found row h = ground arith

module _ (c : Crypto) (j : RowCodec) (s : PgStore) where
  -- The row that a read finds.
  get-row :
      (now db_now : Time) (fault : Option Error) (handle : Bytes) (table : Table) (t : StoredToken)
      → get c j s now db_now fault handle table ≡ ok t
      → (id : Bytes) × (current : Bool) × (row : Row) × (row_id c j s now handle ≡ ok (id, current))
        × (get_session id table ≡ some row)
        × (db_now < row.expires_at)
        × (t.issued_at ≡ row.created_at)
        × (t.expires_at ≡ row.expires_at)
  unfolding get
  get-row now db_now fault handle table t h =
      let ((id, current), named, h1) = >>=-eq-ok (row_id c j s now handle) _ h in
      let (row, found, h2) = >>=-eq-ok (live db_now (faulted fault (get_session id table))) _ h1 in
      let (opened, _, h3) = >>=-eq-ok (open_row c j s now id row.payload) _ h2 in
      let (there, before) = live-ok db_now fault (get_session id table) row found in
      (id, current, row, named, there, before, ground (arith, h3), ground (arith, h3))

  -- The row of a session that was there is its row of before, after whatever is done.
  run-row :
      (op : Operation) (table : Table) (id : Bytes) (row new : Row)
      → Reachable c j s table
      → get_session id table ≡ some row
      → get_session id (run c j s op table) ≡ some new
      → (new.created_at ≡ row.created_at) × (new.expires_at ≡ row.expires_at)
  run-row op table id row new r there after =
      let (apart, lasting) = Reachable-Kept c j s table r in
      let (_, _, kept) = run-Kept c j s table apart lasting op in
      let named = get_session-id id (run c j s op table) new after in
      elim (All-In _ new (run c j s op table) kept
        (get_session-In id (run c j s op table) new after)) [
          | inl absent ↦ absurd (ground (arith, ap (λ i. get_session i table) named, absent, there))
          | inr (old, here, same_id, _, at, until) ↦
              let same : old ≡ row =
                same_row table old row apart here (get_session-In id table row there)
                  (sym same_id ∙ named ∙ sym (get_session-id id table row there)) in
              (at ∙ ap (λ o. o.created_at) same, until ∙ ap (λ o. o.expires_at) same)
        ]

  -- The sessions of a table that comes of an empty one by any operations of the store's processes,
  -- with whatever times, faults and interleavings of reads and writes. Where a handle is read as a
  -- session before and after one more operation, its times are the same, so no operation restarts or
  -- extends a session that is there: the session expires at its maximal age after its creation, and
  -- the later read was before that time, by the database's clock.
  pub get-run :
      (now db_now : Time) (fault : Option Error) (handle : Bytes) (table : Table) (t : StoredToken)
      (op : Operation) (later db_later : Time) (fault_later : Option Error) (u : StoredToken)
      → Reachable c j s table
      → get c j s now db_now fault handle table ≡ ok t
      → get c j s later db_later fault_later handle (run c j s op table) ≡ ok u
      → (u.issued_at ≡ t.issued_at)
        × (u.expires_at ≡ t.expires_at)
        × (t.expires_at ≡ t.issued_at + age c j s)
        × (db_later < t.issued_at + age c j s)
  get-run now db_now fault handle table t op later db_later fault_later u r h h' =
      let (_, lasting) = Reachable-Kept c j s table r in
      let (id, current, row, named, there, _, issued, until) =
        get-row now db_now fault handle table t h in
      let (id', current', new, named', after, before, issued', until') =
        get-row later db_later fault_later handle (run c j s op table) u h' in
      let one = row_id-stable c j s now later handle id id' current current' named named' in
      let (at, ends) = run-row op table id row new r there (rw one after) in
      let lasts =
        All-In (Lasts (age c j s)) row table lasting (get_session-In id table row there) in
      let ages : t.expires_at ≡ t.issued_at + age c j s = ground (arith, issued, until, lasts) in
      (
        issued' ∙ at ∙ sym issued,
        until' ∙ ends ∙ sym until,
        ages,
        omega (arith, ages, before, ends, until),
      )
