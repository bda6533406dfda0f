-- ===== src/PgStore/Changes/Removing.antt =====
-- Sessions that are removed: by their handle, and by the sweep of expired rows.
use howdah.Base.{
  ◌≡◌, [], ◌∷◌, Bool, true, none, some, refl, arith, Option-cases, Bool-cases, inl, inr, ◌==◌,
}
use howdah.Base.Bytes.{Bytes, bytes_eq}
use howdah.Clock.{Time}
use howdah.Crypto.{Crypto}
use howdah.Encoding.Base64.{raw_url_decode}
use howdah.Keyring.{CookieKeyring}
use howdah.Envelope.{SessionKind, open_kind, open_kind_raw, session_kind_handle}
use howdah.Envelope.RoundTrip.{open_kind_raw-plaintext}
use howdah.Errors.{Error, ok, err, is, no_session, Result-cases, >>=-eq-ok, wrap, lit, sentinel}
use howdah.Sealer.{open_handle}
use howdah.PgStore.{PgStore, RowCodec, row_id}
use howdah.PgStore.Rows.{Table, get_session, delete_session, delete_where}
use howdah.PgStore.Store.{get}
use howdah.PgStore.Changes.{delete}

get_session-delete_session :
    (id : Bytes) (table : Table) → get_session id (delete_session id table).0 ≡ none
unfolding delete_session delete_where get_session
get_session-delete_session id [] = refl
get_session-delete_session id (row ∷ table) =
    ground (arith, Bool-cases (row.id == id), get_session-delete_session id table)

open_kind-plaintext :
    (c : Crypto) (k : CookieKeyring) (now later : Time) (kind : SessionKind)
    (domain value text text' : Bytes) (current current' : Bool)
    → open_kind c (some k) now kind domain value ≡ ok (text, current)
    → open_kind c (some k) later kind domain value ≡ ok (text', current')
    → text ≡ text'
unfolding open_kind
open_kind-plaintext c k now later kind domain value text text' current current' h h' =
    elim (Option-cases (raw_url_decode value)) [
      | inl garbled ↦ absurd (ground arith)
      | inr (raw_value, decodes) ↦
          let (o, opens, e) =
            >>=-eq-ok (open_kind_raw c (some k) now kind domain raw_value)
              (λ o. ok (o.plaintext, o.current)) (rw decodes at h) in
          let (o', opens', e') =
            >>=-eq-ok (open_kind_raw c (some k) later kind domain raw_value)
              (λ o. ok (o.plaintext, o.current)) (rw decodes at h') in
          let same =
            open_kind_raw-plaintext c k now later kind domain raw_value o o' opens opens' in
          ground (arith, e, e', same)
    ]

module _ (c : Crypto) (j : RowCodec) (s : PgStore) where
  row_id-ok :
      (now : Time) (handle id : Bytes) (current : Bool)
      → row_id c j s now handle ≡ ok (id, current)
      → (plaintext : Bytes) × (open_kind c
            (some s.sealer.keyring)
            now
            session_kind_handle
            s.sealer.cookie_domain
            handle
          ≡ ok (plaintext, current))
        × (id ≡ c.sha256 plaintext)
  unfolding row_id open_handle
  row_id-ok now handle id current h =
      elim (Result-cases (
        open_kind c (some s.sealer.keyring) now session_kind_handle s.sealer.cookie_domain
          handle)) [
            | inr (e, failed) ↦ absurd (ground arith)
            | inl ((plaintext, other), opens) ↦
                (plaintext, ground (arith, opens, h), ground (arith, opens, h))
          ]

  -- A handle names one row at all times.
  pub row_id-stable :
      (now later : Time) (handle id id' : Bytes) (current current' : Bool)
      → row_id c j s now handle ≡ ok (id, current)
      → row_id c j s later handle ≡ ok (id', current')
      → id ≡ id'
  row_id-stable now later handle id id' current current' h h' =
      let (text, opens, e) = row_id-ok now handle id current h in
      let (text', opens', e') = row_id-ok later handle id' current' h' in
      let same =
        open_kind-plaintext c s.sealer.keyring now later session_kind_handle s.sealer.cookie_domain
          handle text text' current current' opens opens' in
      cc (e, e', same)

  row_id-no_session :
      (now : Time) (handle : Bytes) (e : Error)
      → row_id c j s now handle ≡ err e
      → is e no_session ≡ true
  unfolding row_id is
  row_id-no_session now handle e h = ground arith

  missing :
      (later db_later : Time) (handle id : Bytes) (current : Bool) (table : Table)
      → row_id c j s later handle ≡ ok (id, current)
      → get_session id table ≡ none
      → get c j s later db_later none handle table
        ≡ err (wrap (lit "unknown session handle" ∷ []) (sentinel no_session))
  unfolding get
  missing later db_later handle id current table named none_there = rw (named, none_there) refl

  unnamed :
      (later db_later : Time) (handle : Bytes) (e : Error) (table : Table)
      → row_id c j s later handle ≡ err e
      → get c j s later db_later none handle table ≡ err e
  unfolding get
  unnamed later db_later handle e table failed = rw failed refl

  delete-table :
      (now : Time) (handle id : Bytes) (current : Bool) (table : Table)
      → row_id c j s now handle ≡ ok (id, current)
      → delete c j s now none handle table ≡ ((delete_session id table).0, ok tt)
  unfolding delete
  delete-table now handle id current table named = ground (arith, named)

  -- Deleting the session of a handle that opens succeeds, and from then on, while no row is added,
  -- every read of that handle that the database answers says that there is no session.
  pub get-delete :
      (now later db_later : Time) (handle id : Bytes) (current : Bool) (table : Table)
      → row_id c j s now handle ≡ ok (id, current)
      → (after : Table) × (delete c j s now none handle table ≡ (after, ok tt))
        × ((e : Error) × (get c j s later db_later none handle after ≡ err e)
            × (is e no_session ≡ true))
  get-delete now later db_later handle id current table named = (
    (delete_session id table).0,
    delete-table now handle id current table named,
    elim (Result-cases (row_id c j s later handle)) [
      | inr (e, failed) ↦ (
        e,
        unnamed later db_later handle e (delete_session id table).0 failed,
        row_id-no_session later handle e failed,
      )
      | inl ((id', current'), names) ↦
          let same = row_id-stable now later handle id id' current current' named names in
          (
            wrap (lit "unknown session handle" ∷ []) (sentinel no_session),
            missing later db_later handle id' current' (delete_session id table).0 names
                (rw (← same) (get_session-delete_session id table)),
            unfold is in refl,
          )
    ],
  )
