-- ===== src/PgStore/Lifetimes.antt =====
-- The absolute lifetime of the sessions in the table, through all that is done to it: the operations of
-- pgstore.go, and the statements that a refresh makes in refresh.go, each by any process at any time.
pub mod Keeping
pub mod Bound
use howdah.Base.{
  ℕ, ◌+◌, ◌≡◌, ◌<◌, ◌⊎◌, List, [], ◌∷◌, Bool, true, false, Option, none, some, refl, arith,
  Bool-cases, Option-cases, inl, inr, All, AllPairs, All-In, In, ltb, ◌&&◌, ◌==◌,
}
use howdah.Base.Bytes.{Bytes, bytes_eq}
use howdah.Base.Int.{ℤ}
use howdah.Clock.{Time}
use howdah.Crypto.{Crypto}
use howdah.Errors.{Error, Result, ok, err, Result-cases, >>=-eq-ok, wrapped, lit}
use howdah.Session.{OauthToken, NewSession, StoredToken}
use howdah.PgStore.{PgStore, RowCodec, row_id, open_row, seal_row, interval}
use howdah.Sealer.{seal_handle}
use howdah.PgStore.Rows.{
  Row, Table, get_session, create_session, update_where, delete_where, update_session,
  take_refresh_lease, commit_refresh, fail_refresh, delete_session, delete_subject_sessions,
  delete_expired_sessions, refreshed, leased, marked_failed, may_take,
}
use howdah.PgStore.Rows.Keeping.{
  Apart, Descends, Lasts, Kept, Kept-same, delete_where-Kept, update_where-Kept,
  create_session-Kept, get_session-In,
}
use howdah.PgStore.Store.{
  get, create, create_with, created, prepare, payload_for, new_row, inserted, live, faulted,
}
use howdah.PgStore.Changes.{
  update, renew, delete, delete_subject, delete_expired, batch_size, removed, swept, written,
}

-- What is done to the table, with all that it depends on: times, faults, random bytes, and for an update
-- the table that it read before.
pub data Operation : Type 0 where
  creates :
      Time
      → Time
      → Option Error
      → NewSession
      → Result Bytes
      → Result Bytes
      → Result Bytes
      → Operation
  updates :
      Time
      → Time
      → Time
      → Option Error
      → Option Error
      → Bytes
      → Option OauthToken
      → Result Bytes
      → Table
      → Operation
  deletes : Time → Option Error → Bytes → Operation
  deletes_subject : Option Error → Bytes → Operation
  sweeps : (Row → Bool) → Time → Option Error → ℤ → Operation
  takes_lease : Time → Bytes → Bytes → ℕ → Time → Option Time → Operation
  commits : Time → Bytes → Bytes → Bytes → Bytes → Time → Operation
  marks_failed : Time → Bytes → Bytes → Operation

module _ (c : Crypto) (j : RowCodec) (s : PgStore) where
  unfoldable pub run : Operation → Table → Table
  unfolding create update delete delete_subject delete_expired take_refresh_lease commit_refresh
      fail_refresh
  run (creates now db_now fault new handle handle_random payload_random) table =
      (create c j s now db_now fault new handle handle_random payload_random table).0
  run (updates now db_now write_now read_fault fault handle tok random seen) table =
      (update c j s now db_now write_now read_fault fault handle tok random seen table).0
  run (deletes now fault handle) table = (delete c j s now fault handle table).0
  run (deletes_subject fault subject) table = (delete_subject fault subject table).0
  run (sweeps locked db_now fault batch) table = (delete_expired locked db_now fault batch table).0
  run (takes_lease now id nonce lease seen_refreshed_at seen_failed_at) table =
      (take_refresh_lease now id nonce lease seen_refreshed_at seen_failed_at table).0
  run (commits now id nonce key_id payload access_expires_at) table =
      (commit_refresh now id nonce key_id payload access_expires_at table).0
  run (marks_failed now id nonce) table = (fail_refresh now id nonce table).0

  -- The tables that come of an empty one.
  pub data Reachable : Table → Type 0 where
    empty : Reachable []
    step : (op : Operation) (table : Table) → Reachable table → Reachable (run op table)

  abbrev pub age : ℕ
  age = interval s.conf.max_session_age
