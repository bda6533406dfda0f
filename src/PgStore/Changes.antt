-- ===== src/PgStore/Changes.antt =====
-- The operations of pgstore.go that change or remove a row, and `Reseal`. `now` is the process's time
-- and `db_now` the database's; `fault` is the error of the operation's statement, which then changed
-- nothing.
pub mod Removing
pub mod Sweeping
pub mod Draining
use howdah.Base.{
  ℕ, ◌+◌, ◌^◌, List, [], ◌∷◌, ◌++◌, Bool, true, false, not, Option, none, some, ◌==◌, nat_eq,
  if◌then◌else◌, ltb, leb, ◌-◌,
}
use howdah.Base.Bytes.{Bytes, bytes_eq}
use howdah.Base.Int.{ℤ, pos, negsuc, int_leb}
use howdah.Clock.{Time}
use howdah.Crypto.{Crypto}
use howdah.Errors.{
  Error, message, lit, wrap, wrap_both, sentinel, no_session, wrapped, Result, ok, err, ◌>>=◌, is,
}
use howdah.Sealer.{KeyId, seal_handle, open_handle}
use howdah.Session.{OauthToken, NewSession, StoredToken}
use howdah.PgStore.{
  PgStore, RowCodec, RowPayload, session_payload_v1, seal_row, open_row, row_id, interval, gone,
}
use howdah.PgStore.Rows.{
  Row, Table, get_session, create_session, update_session, delete_session, delete_subject_sessions,
  delete_expired_sessions,
}
use howdah.PgStore.Store.{get}

module _ (c : Crypto) (j : RowCodec) (s : PgStore) (now : Time) where
  abbrev pub written :
      Option Error → StoredToken → OauthToken → Table × ℕ → Table → Table × Result StoredToken
  written (some e) session tok after table =
      (table, err (wrap (lit "write the session row" ∷ []) e))
  written none session tok (after, rows) table = (
    after,
    if rows == 0
        then err (
            wrap (lit "the session was removed while it was being updated" ∷ [])
              (sentinel no_session))
        else ok (record session { token = some tok }),
  )

  -- The session, the row's id and the payload sealed anew.
  unfoldable pub renew :
      Time
      → Option Error
      → Bytes
      → OauthToken
      → Result Bytes
      → Table
      → Result (StoredToken × Bytes × Bytes × KeyId)
  unfolding get row_id seal_row
  renew db_now read_fault handle tok random table = do
    session ← get c j s now db_now read_fault handle table
    id ← row_id c j s now handle
    sealed ←
        seal_row c j s now id.0
          (record {
            version = session_payload_v1;
            subject = session.subject;
            token = some tok;
            id_token = session.id_token;
          })
          random
    ok (session, id.0, sealed.0, sealed.1)

  -- The table may change between the read and the write: `table` is what the read sees and `later`
  -- what the write finds, at `write_now`.
  unfoldable pub update :
      Time
      → Time
      → Option Error
      → Option Error
      → Bytes
      → Option OauthToken
      → Result Bytes
      → Table
      → Table
      → Table × Result StoredToken
  unfolding renew update_session
  update db_now write_now read_fault fault handle none random table later =
      (later, err (message (lit "a session needs a token" ∷ [])))
  update db_now write_now read_fault fault handle (some tok) random table later =
      elim (renew db_now read_fault handle tok random table) [
        | err e ↦ (later, err e)
        | ok (session, id, sealed, kid) ↦
            written fault session tok (update_session write_now id kid sealed tok.expiry later)
              later
      ]

  unfoldable pub reseal : Option StoredToken → Result Bytes → Result StoredToken
  unfolding open_handle seal_handle
  reseal none random = err (message (lit "a session is required" ∷ []))
  reseal (some t) random = elim (open_handle c s.sealer now t.handle) [
    | err e ↦ err (gone c j s now e)
    | ok (handle, current) ↦ do
      value ←
          wrapped (lit "seal the session handle" ∷ []) (seal_handle c s.sealer now handle random)
      ok (record t { handle = value; stale = false })
  ]

  abbrev pub removed : Option Error → Table × ℕ → Table → Table × Result (Unit {0})
  removed none (after, rows) table = (after, ok tt)
  removed (some e) after table = (table, err (wrap (lit "delete the session row" ∷ []) e))

  -- A handle that names no session is one that is gone already.
  unfoldable pub delete : Option Error → Bytes → Table → Table × Result (Unit {0})
  unfolding row_id delete_session is
  delete fault handle table = elim (row_id c j s now handle) [
    | err e ↦ (table, if is e no_session then ok tt else err e)
    | ok (id, current) ↦ removed fault (delete_session id table) table
  ]

unfoldable pub delete_subject : Option Error → Bytes → Table → Table × Result ℕ
unfolding delete_subject_sessions
delete_subject fault [] table = (table, err (message (lit "a subject is required" ∷ [])))
delete_subject (some e) (b ∷ subject) table =
    (table, err (wrap (lit "delete the subject's session rows" ∷ []) e))
delete_subject none (b ∷ subject) table =
    let (after, rows) = delete_subject_sessions (b ∷ subject) table in (after, ok rows)

abbrev pub max_int32 : ℕ
max_int32 = 2 ^ 31 - 1

-- The batch size as the int32 that the statement takes.
unfoldable pub batch_size : ℤ → Result ℕ
batch_size (negsuc n) = err (message (lit "the batch size must be positive" ∷ []))
batch_size (pos n) =
    if leb n 0
    then err (message (lit "the batch size must be positive" ∷ []))
    else if ltb max_int32 n
    then ok max_int32
    else ok n

abbrev pub swept : Option Error → Table × ℕ → Table → Table × Result ℕ
swept none (after, rows) table = (after, ok rows)
swept (some e) after table = (table, err (wrap (lit "delete expired session rows" ∷ []) e))

unfoldable pub delete_expired : (Row → Bool) → Time → Option Error → ℤ → Table → Table × Result ℕ
unfolding batch_size delete_expired_sessions
delete_expired locked db_now fault batch table = elim (batch_size batch) [
  | err e ↦ (table, err e)
  | ok size ↦ swept fault (delete_expired_sessions locked db_now size table) table
]
