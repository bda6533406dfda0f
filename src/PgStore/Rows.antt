-- ===== src/PgStore/Rows.antt =====
-- The table howdah_session and the statements of postgres/queries.sql. `now` is the time of the
-- database. A statement that matches a primary key reads or writes at most one row.
pub mod Keeping
use howdah.Base.{
  ℕ, suc, ◌+◌, List, [], ◌∷◌, ◌++◌, Bool, true, false, not, ◌||◌, take, ◌&&◌, Option, none, some,
  ◌==◌, nat_eq, if◌then◌else◌, ltb, leb,
}
use howdah.Base.Bytes.{Bytes, bytes_eq}
use howdah.Clock.{Time}
use howdah.Keyring.Env.{bytes_ltb}
use howdah.Errors.{Result, ok, err, message, lit}

pub record Row : Type 0 where
  pub id : Bytes
  pub subject : Bytes
  pub key_id : Bytes
  pub payload : Bytes
  pub access_expires_at : Time
  pub refresh_lease_until : Option Time
  pub refresh_lease_nonce : Option Bytes
  pub refresh_failed_at : Option Time
  pub refreshed_at : Time
  pub created_at : Time
  pub expires_at : Time

-- Ids are distinct.
abbrev pub Table : Type 0
Table = List Row

-- `x = y`, which is not true where x is NULL.
abbrev pub sql_equal : Option Bytes → Bytes → Bool
sql_equal none y = false
sql_equal (some x) y = x == y

-- `x IS NOT DISTINCT FROM y`
abbrev pub not_distinct : Option Time → Option Time → Bool
not_distinct none none = true
not_distinct none (some y) = false
not_distinct (some x) none = false
not_distinct (some x) (some y) = x == y

-- `x IS NULL OR x < now()`
abbrev pub lease_free : Option Time → Time → Bool
lease_free none now = true
lease_free (some until) now = ltb until now

-- GetSession
unfoldable pub get_session : Bytes → Table → Option Row
get_session id [] = none
get_session id (row ∷ rows) = if row.id == id then some row else get_session id rows

-- An UPDATE of the rows that meet a condition, with how many there were.
unfoldable pub update_where : (Row → Bool) → (Row → Row) → Table → Table × ℕ
update_where p f [] = ([], 0)
update_where p f (row ∷ rows) =
    let (rest, n) = update_where p f rows in
    if p row then (f row ∷ rest, suc n) else (row ∷ rest, n)

-- A DELETE of the rows that meet a condition, with how many there were.
unfoldable pub delete_where : (Row → Bool) → Table → Table × ℕ
delete_where p [] = ([], 0)
delete_where p (row ∷ rows) =
    let (rest, n) = delete_where p rows in if p row then (rest, suc n) else (row ∷ rest, n)

-- CreateSession; a second row with an id violates the primary key.
unfoldable pub create_session : Row → Table → Result Table
unfolding get_session
create_session row table = elim (get_session row.id table) [
  | some other ↦ err (message (lit "duplicate key value violates unique constraint" ∷ []))
  | none ↦ ok (table ++ row ∷ [])
]

module _ (now : Time) where
  -- What UpdateSession and CommitRefresh set.
  abbrev pub refreshed : Bytes → Bytes → Time → Row → Row
  refreshed key_id payload access_expires_at row = record row {
    key_id = key_id;
    payload = payload;
    access_expires_at = access_expires_at;
    refreshed_at = now;
    refresh_lease_until = none;
    refresh_lease_nonce = none;
    refresh_failed_at = none;
  }

  unfoldable pub update_session : Bytes → Bytes → Bytes → Time → Table → Table × ℕ
  unfolding update_where
  update_session id key_id payload access_expires_at =
      update_where (λ row. row.id == id) (refreshed key_id payload access_expires_at)

  abbrev pub may_take : Time → Option Time → Row → Bool
  may_take seen_refreshed_at seen_failed_at row =
      lease_free row.refresh_lease_until now
      && leb row.refreshed_at seen_refreshed_at
      && not_distinct row.refresh_failed_at seen_failed_at
      && ltb now row.expires_at

  abbrev pub leased : Bytes → ℕ → Row → Row
  leased nonce lease row = record row {
    refresh_lease_until = some (now + lease);
    refresh_lease_nonce = some nonce;
  }

  unfoldable pub take_refresh_lease :
      Bytes → Bytes → ℕ → Time → Option Time → Table → Table × Option Row
  unfolding update_where get_session
  take_refresh_lease id nonce lease seen_refreshed_at seen_failed_at table =
      let (after, n) =
        update_where (λ row. row.id == id && may_take seen_refreshed_at seen_failed_at row)
          (leased nonce lease) table in
      (after, if n == 0 then none else get_session id after)

  unfoldable pub commit_refresh : Bytes → Bytes → Bytes → Bytes → Time → Table → Table × ℕ
  unfolding update_where
  commit_refresh id nonce key_id payload access_expires_at =
      update_where (λ row. row.id == id && sql_equal row.refresh_lease_nonce nonce)
        (refreshed key_id payload access_expires_at)

  abbrev pub marked_failed : Row → Row
  marked_failed row = record row {
    refresh_failed_at = some now;
    refresh_lease_until = none;
    refresh_lease_nonce = none;
  }

  unfoldable pub fail_refresh : Bytes → Bytes → Table → Table × ℕ
  unfolding update_where
  fail_refresh id nonce =
      update_where (λ row. row.id == id && sql_equal row.refresh_lease_nonce nonce) marked_failed

unfoldable pub delete_session : Bytes → Table → Table × ℕ
unfolding delete_where
delete_session id = delete_where (λ row. row.id == id)

unfoldable pub delete_subject_sessions : Bytes → Table → Table × ℕ
unfolding delete_where
delete_subject_sessions subject = delete_where (λ row. row.subject == subject)

-- The order of DeleteExpiredSessions: by expiry, then by id.
abbrev pub expires_first : Row → Row → Bool
expires_first a b =
    ltb a.expires_at b.expires_at || (a.expires_at == b.expires_at && bytes_ltb a.id b.id)

unfoldable pub insert_row : Row → List Row → List Row
unfolding bytes_ltb
insert_row row [] = row ∷ []
insert_row row (other ∷ rows) =
    if expires_first other row then other ∷ insert_row row rows else row ∷ other ∷ rows

-- The rows past their expiry that no other transaction has locked, in order.
unfoldable pub expired_rows : (Row → Bool) → Time → Table → List Row
unfolding insert_row
expired_rows locked now [] = []
expired_rows locked now (row ∷ rows) =
    let rest = expired_rows locked now rows in
    if leb row.expires_at now && not (locked row) then insert_row row rest else rest

abbrev pub has_id : List Row → Row → Bool
has_id [] row = false
has_id (other ∷ rows) row = other.id == row.id || has_id rows row

-- DeleteExpiredSessions
unfoldable pub delete_expired_sessions : (Row → Bool) → Time → ℕ → Table → Table × ℕ
unfolding expired_rows delete_where
delete_expired_sessions locked now batch table =
    delete_where (has_id (take batch (expired_rows locked now table))) table
