-- ===== src/PgStore/Lifetimes/Keeping.antt =====
-- What an operation leaves of the rows that are there.
use howdah.Base.{
  ℕ, ◌≡◌, [], ◌∷◌, Bool, Option, none, some, refl, arith, inl, inr, All, AllPairs, ◌==◌,
}
use howdah.Base.Bytes.{Bytes, bytes_eq}
use howdah.Base.Int.{ℤ}
use howdah.Clock.{Time}
use howdah.Crypto.{Crypto}
use howdah.Errors.{Error, Result, ok, err, Result-cases, >>=-eq-ok, wrapped, lit}
use howdah.Session.{OauthToken, NewSession, StoredToken}
use howdah.PgStore.{PgStore, RowCodec, row_id, seal_row}
use howdah.Sealer.{seal_handle}
use howdah.PgStore.Rows.{
  Row, Table, create_session, update_session, take_refresh_lease, commit_refresh, fail_refresh,
  delete_session, delete_subject_sessions, delete_expired_sessions,
}
use howdah.PgStore.Rows.Keeping.{
  Apart, Lasts, Kept, Kept-same, delete_where-Kept, update_where-Kept, create_session-Kept,
}
use howdah.PgStore.Store.{create, create_with, created, prepare, payload_for, inserted}
use howdah.PgStore.Changes.{
  update, renew, delete, delete_subject, delete_expired, batch_size, removed, swept, written,
}
use howdah.PgStore.Lifetimes.{
  Operation, creates, updates, deletes, deletes_subject, sweeps, takes_lease, commits, marks_failed,
  run, Reachable, empty, step, age,
}

module _ (c : Crypto) (j : RowCodec) (s : PgStore) where
  module _ (table : Table) (apart : AllPairs Apart table)
      (lasting : All (Lasts (age c j s)) table) where
    inserted-Kept :
        (now : Time) (row : Row)
        → Lasts (age c j s) row
        → Kept (age c j s) table (inserted c j s now none row table).0
    inserted-Kept now row lasts = elim (Result-cases (create_session row table)) [
      | inr (e, failed) ↦ rw (failed, inserted) (Kept-same (age c j s) table apart lasting)
      | inl (after, made) ↦
          rw (made, inserted)
            (create_session-Kept (age c j s) table apart lasting row after lasts made)
    ]

    created-Kept :
        (now db_now : Time) (fault : Option Error) (new : NewSession) (tok : OauthToken)
        (ready : Result (Bytes × Row))
        → ((value : Bytes) (row : Row) → ready ≡ ok (value, row) → Lasts (age c j s) row)
        → Kept (age c j s) table (created c j s now db_now fault new tok ready table).0
    created-Kept now db_now fault new tok (err e) lasts = Kept-same (age c j s) table apart lasting
    created-Kept now db_now (some e) new tok (ok (value, row)) lasts =
        Kept-same (age c j s) table apart lasting
    created-Kept now db_now none new tok (ok (value, row)) lasts =
        inserted-Kept now row (lasts value row refl)

    prepare-Lasts :
        (now db_now : Time) (new : NewSession) (tok : OauthToken)
        (handle handle_random payload_random : Result Bytes) (value : Bytes) (row : Row)
        → prepare c j s now db_now new tok handle handle_random payload_random ≡ ok (value, row)
        → Lasts (age c j s) row
    unfolding prepare
    prepare-Lasts now db_now new tok handle handle_random payload_random value row h =
        let (b, _, h1) = >>=-eq-ok (wrapped (lit "generate a session handle" ∷ []) handle) _ h in
        let (v, _, h2) =
          >>=-eq-ok
            (wrapped (lit "seal the session handle" ∷ [])
              (seal_handle c s.sealer now b handle_random))
            _ h1 in
        let (sealed, _, h3) =
          >>=-eq-ok (seal_row c j s now (c.sha256 b) (payload_for c j s now new tok) payload_random)
            _ h2 in
        ground (arith, h3)

    create_with-Kept :
        (now db_now : Time) (fault : Option Error) (new : NewSession) (tok : Option OauthToken)
        (handle handle_random payload_random : Result Bytes)
        → Kept
            (age c j s)
            table
            (create_with c j s now db_now fault new tok handle handle_random payload_random table).0
    create_with-Kept now db_now fault new none handle handle_random payload_random =
        Kept-same (age c j s) table apart lasting
    create_with-Kept now db_now fault new (some tok) handle handle_random payload_random =
        created-Kept now db_now fault new tok
          (prepare c j s now db_now new tok handle handle_random payload_random)
          (prepare-Lasts now db_now new tok handle handle_random payload_random)

    update_session-Kept :
        (now : Time) (id key_id payload : Bytes) (access_expires_at : Time)
        → Kept (age c j s) table (update_session now id key_id payload access_expires_at table).0
    unfolding update_session
    update_session-Kept now id key_id payload access_expires_at =
        update_where-Kept (age c j s) table apart lasting _ _ (λ row. (refl, refl, refl, refl))

    written-Kept :
        (now : Time) (fault : Option Error) (session : StoredToken) (tok : OauthToken)
        (after : Table × ℕ)
        → Kept (age c j s) table after.0
        → Kept (age c j s) table (written c j s now fault session tok after table).0
    written-Kept now none session tok after k = k
    written-Kept now (some e) session tok after k = Kept-same (age c j s) table apart lasting

    update-Kept :
        (now db_now write_now : Time) (read_fault fault : Option Error) (handle : Bytes)
        (tok : Option OauthToken) (random : Result Bytes) (seen : Table)
        → Kept
            (age c j s)
            table
            (update c j s now db_now write_now read_fault fault handle tok random seen table).0
    unfolding update
    update-Kept now db_now write_now read_fault fault handle none random seen =
        Kept-same (age c j s) table apart lasting
    update-Kept now db_now write_now read_fault fault handle (some tok) random seen =
        elim (Result-cases (renew c j s now db_now read_fault handle tok random seen)) [
          | inr (e, failed) ↦ rw (failed, update) (Kept-same (age c j s) table apart lasting)
          | inl ((session, id, sealed, kid), ready) ↦
              rw (ready, update)
                (written-Kept now fault session tok _
                  (update_session-Kept write_now id kid sealed tok.expiry))
        ]

    removed-Kept :
        (now : Time) (fault : Option Error) (after : Table × ℕ)
        → Kept (age c j s) table after.0
        → Kept (age c j s) table (removed c j s now fault after table).0
    removed-Kept now none after k = k
    removed-Kept now (some e) after k = Kept-same (age c j s) table apart lasting

    delete-Kept :
        (now : Time) (fault : Option Error) (handle : Bytes)
        → Kept (age c j s) table (delete c j s now fault handle table).0
    unfolding delete delete_session
    delete-Kept now fault handle = elim (Result-cases (row_id c j s now handle)) [
      | inr (e, failed) ↦ rw (failed, delete) (Kept-same (age c j s) table apart lasting)
      | inl ((id, current), named) ↦
          rw (named, delete)
            (removed-Kept now fault _
              (delete_where-Kept (age c j s) table apart lasting (λ row. row.id == id)))
    ]

    delete_subject-Kept :
        (fault : Option Error) (subject : Bytes)
        → Kept (age c j s) table (delete_subject fault subject table).0
    unfolding delete_subject delete_subject_sessions
    delete_subject-Kept none [] = Kept-same (age c j s) table apart lasting
    delete_subject-Kept (some e) [] = Kept-same (age c j s) table apart lasting
    delete_subject-Kept (some e) (b ∷ subject) = Kept-same (age c j s) table apart lasting
    delete_subject-Kept none (b ∷ subject) =
        delete_where-Kept (age c j s) table apart lasting (λ row. row.subject == b ∷ subject)

    swept-Kept :
        (fault : Option Error) (after : Table × ℕ)
        → Kept (age c j s) table after.0
        → Kept (age c j s) table (swept fault after table).0
    swept-Kept none after k = k
    swept-Kept (some e) after k = Kept-same (age c j s) table apart lasting

    delete_expired-Kept :
        (locked : Row → Bool) (db_now : Time) (fault : Option Error) (batch : ℤ)
        → Kept (age c j s) table (delete_expired locked db_now fault batch table).0
    unfolding delete_expired delete_expired_sessions
    delete_expired-Kept locked db_now fault batch = elim (Result-cases (batch_size batch)) [
      | inr (e, failed) ↦ rw (failed, delete_expired) (Kept-same (age c j s) table apart lasting)
      | inl (size, fits) ↦
          rw (fits, delete_expired)
            (swept-Kept fault _ (delete_where-Kept (age c j s) table apart lasting _))
    ]

    pub run-Kept : (op : Operation) → Kept (age c j s) table (run c j s op table)
    unfolding run create take_refresh_lease commit_refresh fail_refresh
    run-Kept (creates now db_now fault new handle handle_random payload_random) =
        create_with-Kept now db_now fault new new.token handle handle_random payload_random
    run-Kept (updates now db_now write_now read_fault fault handle tok random seen) =
        update-Kept now db_now write_now read_fault fault handle tok random seen
    run-Kept (deletes now fault handle) = delete-Kept now fault handle
    run-Kept (deletes_subject fault subject) = delete_subject-Kept fault subject
    run-Kept (sweeps locked db_now fault batch) = delete_expired-Kept locked db_now fault batch
    run-Kept (takes_lease now id nonce lease seen_refreshed_at seen_failed_at) =
        update_where-Kept (age c j s) table apart lasting _ _ (λ row. (refl, refl, refl, refl))
    run-Kept (commits now id nonce key_id payload access_expires_at) =
        update_where-Kept (age c j s) table apart lasting _ _ (λ row. (refl, refl, refl, refl))
    run-Kept (marks_failed now id nonce) =
        update_where-Kept (age c j s) table apart lasting _ _ (λ row. (refl, refl, refl, refl))

  pub Reachable-Kept :
      (table : Table) → Reachable c j s table → AllPairs Apart table × All (Lasts (age c j s)) table
  Reachable-Kept [] empty = (tt, tt)
  Reachable-Kept _ (step op table r) =
      let (apart, lasting) = Reachable-Kept table r in
      let (apart', lasting', _) = run-Kept table apart lasting op in (apart', lasting')
