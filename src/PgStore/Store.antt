-- ===== src/PgStore/Store.antt =====
-- `Create` and `Get` of pgstore.go. `now` is the process's time and `db_now` the
-- database's; `fault` is the error of the operation's statement, which then changed nothing.
pub mod Reading
use howdah.Base.{
  ℕ, ◌+◌, ◌^◌, List, [], ◌∷◌, ◌++◌, Bool, true, false, not, Option, none, some, ◌==◌, nat_eq,
  if◌then◌else◌, ltb, leb, ◌-◌,
}
use howdah.Base.Bytes.{Bytes, bytes_eq}
use howdah.Base.Int.{ℤ, pos, negsuc, int_leb}
use howdah.Clock.{Time}
use howdah.Crypto.{Crypto}
use howdah.Errors.{
  Error, message, lit, wrap, wrap_both, sentinel, no_session, wrapped, Result, ok, err, ◌>>=◌, is,
}
use howdah.Sealer.{KeyId, seal_handle, open_handle}
use howdah.Session.{OauthToken, NewSession, StoredToken}
use howdah.PgStore.{
  PgStore, RowCodec, RowPayload, session_payload_v1, seal_row, open_row, row_id, interval, gone,
}
use howdah.PgStore.Rows.{
  Row, Table, get_session, create_session, update_session, delete_session, delete_subject_sessions,
  delete_expired_sessions,
}

abbrev pub faulted {ℓ} : {A : Type ℓ} → Option Error → A → Result A
faulted none a = ok a
faulted (some e) a = err e

-- The table after a statement that may have failed.
abbrev pub after_fault : Option Error → Table → Table → Table
after_fault none new old = new
after_fault (some e) new old = old

-- A row that is there and not past its absolute expiry, by the database's clock.
abbrev pub live : Time → Result (Option Row) → Result Row
live db_now (err e) = err (wrap (lit "read the session row" ∷ []) e)
live db_now (ok none) = err (wrap (lit "unknown session handle" ∷ []) (sentinel no_session))
live db_now (ok (some row)) =
    if not (ltb db_now row.expires_at)
    then err (wrap (lit "the session expired" ∷ []) (sentinel no_session))
    else ok row

abbrev pub session_of : Bytes → Bool → Row → RowPayload × OauthToken → StoredToken
session_of handle stale row (payload, tok) = record {
  handle = handle;
  subject = payload.subject;
  token = some tok;
  id_token = payload.id_token;
  issued_at = row.created_at;
  expires_at = row.expires_at;
  stale = stale;
}

module _ (c : Crypto) (j : RowCodec) (s : PgStore) (now : Time) where
  unfoldable pub get : Time → Option Error → Bytes → Table → Result StoredToken
  unfolding row_id open_row get_session
  get db_now fault handle table = do
    id ← row_id c j s now handle
    row ← live db_now (faulted fault (get_session id.0 table))
    opened ← open_row c j s now id.0 row.payload
    ok (session_of handle (not id.1) row opened)

  -- The row that `Create` inserts.
  abbrev pub new_row : Time → Bytes → NewSession → OauthToken → Bytes × KeyId → Row
  new_row db_now id new tok (sealed, kid) = record {
    id = id;
    subject = new.subject;
    key_id = kid;
    payload = sealed;
    access_expires_at = tok.expiry;
    refresh_lease_until = none;
    refresh_lease_nonce = none;
    refresh_failed_at = none;
    refreshed_at = db_now;
    created_at = db_now;
    expires_at = db_now + interval s.conf.max_session_age;
  }

  abbrev pub payload_for : NewSession → OauthToken → RowPayload
  payload_for new tok = record {
    version = session_payload_v1;
    subject = new.subject;
    token = some tok;
    id_token = new.id_token;
  }

  abbrev pub inserted : Option Error → Row → Table → Table × Result (Unit {0})
  inserted fault row table = elim (faulted fault (create_session row table)) [
    | err e ↦ (table, err (wrap (lit "create the session row" ∷ []) e))
    | ok (err e) ↦ (table, err (wrap (lit "create the session row" ∷ []) e))
    | ok (ok after) ↦ (after, ok tt)
  ]

  -- What is computed before the row is inserted: the cookie value and the row.
  unfoldable pub prepare :
      Time
      → NewSession
      → OauthToken
      → Result Bytes
      → Result Bytes
      → Result Bytes
      → Result (Bytes × Row)
  unfolding seal_handle seal_row
  prepare db_now new tok handle handle_random payload_random = do
    handle ← wrapped (lit "generate a session handle" ∷ []) handle
    value ←
        wrapped (lit "seal the session handle" ∷ [])
          (seal_handle c s.sealer now handle handle_random)
    sealed ← seal_row c j s now (c.sha256 handle) (payload_for new tok) payload_random
    ok (value, new_row db_now (c.sha256 handle) new tok sealed)

  abbrev pub created :
      Time
      → Option Error
      → NewSession
      → OauthToken
      → Result (Bytes × Row)
      → Table
      → Table × Result StoredToken
  created db_now fault new tok (err e) table = (table, err e)
  created db_now fault new tok (ok (value, row)) table =
      let (after, done) = inserted fault row table in
      (
        after,
        elim done [
          | err e ↦ err e
          | ok t ↦ ok (record {
            handle = value;
            subject = new.subject;
            token = some tok;
            id_token = new.id_token;
            issued_at = db_now;
            expires_at = db_now + interval s.conf.max_session_age;
            stale = false;
          })
        ],
      )

  abbrev pub create_with :
      Time
      → Option Error
      → NewSession
      → Option OauthToken
      → Result Bytes
      → Result Bytes
      → Result Bytes
      → Table
      → Table × Result StoredToken
  create_with db_now fault new none handle handle_random payload_random table =
      (table, err (message (lit "a session needs a token" ∷ [])))
  create_with db_now fault new (some tok) handle handle_random payload_random table =
      created db_now fault new tok (prepare db_now new tok handle handle_random payload_random)
        table

  -- `handle` is what rand.Read gives for it, the other two what it gives for the two nonces.
  unfoldable pub create :
      Time
      → Option Error
      → NewSession
      → Result Bytes
      → Result Bytes
      → Result Bytes
      → Table
      → Table × Result StoredToken
  unfolding prepare create_session
  create db_now fault new handle handle_random payload_random table =
      create_with db_now fault new new.token handle handle_random payload_random table
