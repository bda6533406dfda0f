-- ===== src/PgStore/Store/Reading.antt =====
-- Reading a session that `Create` has stored.
use howdah.Base.{
  ◌+◌, ◌≤◌, ◌<◌, ◌≡◌, [], ◌∷◌, ◌++◌, Bool, true, not, none, some, refl, arith, length, ◌==◌,
  Option-cases, Bool-cases, inl, inr, ==_iff,
}
use howdah.Base.Bytes.{Bytes, IsBytes, bytes_eq}
use howdah.Clock.{Time}
use howdah.Crypto.{Crypto, IsAead}
use howdah.Envelope.{session_kind_handle}
use howdah.Envelope.Cookie.{open_kind-seal_kind}
use howdah.Errors.{
  Error, ok, err, is, no_session, wrap, lit, sentinel, Result-cases, >>=-eq-ok, wrapped-eq-ok,
}
use howdah.Keyring.Acceptance.{IsKeyring}
use howdah.Sealer.{seal_handle, open_handle, seal_payload}
use howdah.Sealer.Rows.{open_payload-seal_payload}
use howdah.Session.{OauthToken, NewSession, StoredToken, without_extra}
use howdah.PgStore.{
  PgStore, RowCodec, RowPayload, session_payload_v1, seal_row, open_row, row_id, interval,
}
use howdah.PgStore.Rows.{Row, Table, get_session, create_session}
use howdah.PgStore.Store.{get, create, prepare, new_row, payload_for, live, session_of}

abbrev pub stripped : RowPayload → RowPayload
stripped p = record p { token = elim p.token [ none ↦ none | some tok ↦ some (without_extra tok) ] }

-- Decoding undoes encoding, but for the token's Extra map. (encoding/json replaces invalid UTF-8: the
-- payloads are those whose strings are valid.)
pub record IsRowCodec (j : RowCodec) : Type 0 where
  pub unmarshal-marshal :
      (p : RowPayload) (text : Bytes) → j.marshal p ≡ ok text → j.unmarshal text ≡ ok (stripped p)

get_session-append :
    (id : Bytes) (row : Row) (table : Table)
    → get_session id table ≡ none
    → row.id ≡ id
    → get_session id (table ++ row ∷ []) ≡ some row
unfolding get_session
get_session-append id row [] h e = ground (arith, ==_iff row.id id)
get_session-append id row (other ∷ table) h e =
    ground (arith, get_session-append id row table, Bool-cases (other.id == id))

module _ (c : Crypto) (j : RowCodec) (s : PgStore) (v : IsAead c) (m : IsRowCodec j)
    (w : IsKeyring s.sealer.keyring) where
  open_row-seal_row :
      (now later : Time) (id : Bytes) (payload : RowPayload) (tok : OauthToken)
      (nonce sealed kid : Bytes)
      → payload.token ≡ some tok
      → payload.version ≡ session_payload_v1
      → length nonce ≡ 12
      → now ≤ later
      → seal_row c j s now id payload (ok nonce) ≡ ok (sealed, kid)
      → open_row c j s later id sealed ≡ ok (stripped payload, without_extra tok)
  unfolding seal_row open_row
  open_row-seal_row now later id payload tok nonce sealed kid has one full le h =
      let (text, made, put) = >>=-eq-ok _ (λ t. seal_payload c s.sealer now id t (ok nonce)) h in
      let (o, opens, same, _) =
        open_payload-seal_payload c s.sealer now later id text nonce sealed kid v w full le put in
      let back = m.unmarshal-marshal payload text (wrapped-eq-ok _ _ made) in
      ground (arith, opens, same, back, has, one)

  row_id-seal_handle :
      (now later : Time) (handle nonce value : Bytes)
      → IsBytes handle
      → length nonce ≡ 12
      → IsBytes nonce
      → now ≤ later
      → seal_handle c s.sealer now handle (ok nonce) ≡ ok value
      → (current : Bool) × (row_id c j s later value ≡ ok (c.sha256 handle, current))
  unfolding row_id seal_handle open_handle
  row_id-seal_handle now later handle nonce value hb full nb le h =
      let ((current, opens), _) =
        open_kind-seal_kind c s.sealer.keyring now later session_kind_handle s.sealer.cookie_domain
          handle nonce value v w (inr refl) full nb hb le (wrapped-eq-ok _ _ h) in
      (current, ground (arith, opens))

-- The row that a creation leaves, and what its handle and its payload open to.
record Stored (c : Crypto) (j : RowCodec) (s : PgStore) (db_now later : Time) (new : NewSession)
    (after : Table) (t : StoredToken) : Type 0 where
  tok : OauthToken
  row : Row
  current : Bool
  has : new.token ≡ some tok
  names : row_id c j s later t.handle ≡ ok (row.id, current)
  found : get_session row.id after ≡ some row
  opens :
      open_row c j s later row.id row.payload
      ≡ ok (stripped (payload_for c j s db_now new tok), without_extra tok)
  begun : row.created_at ≡ db_now
  ends : row.expires_at ≡ db_now + interval s.conf.max_session_age

module _ (c : Crypto) (j : RowCodec) (s : PgStore) (now db_now later : Time) (new : NewSession)
    (handle handle_nonce payload_nonce : Bytes) (table after : Table) (t : StoredToken)
    (v : IsAead c) (m : IsRowCodec j) (w : IsKeyring s.sealer.keyring) (hb : IsBytes handle)
    (full : length handle_nonce ≡ 12) (nb : IsBytes handle_nonce)
    (pfull : length payload_nonce ≡ 12) (le : now ≤ later) where
  create_keeps :
      (tok : OauthToken) (value sealed kid : Bytes)
      → new.token ≡ some tok
      → seal_handle c s.sealer now handle (ok handle_nonce) ≡ ok value
      → seal_row c j s now (c.sha256 handle) (payload_for c j s db_now new tok) (ok payload_nonce)
        ≡ ok (sealed, kid)
      → create c j s now db_now none new (ok handle) (ok handle_nonce) (ok payload_nonce) table
        ≡ (after, ok t)
      → Stored c j s db_now later new after t
  unfolding create prepare create_session
  create_keeps tok value sealed kid has value_made row_made h =
      let (current, names) =
        row_id-seal_handle c j s v m w now later handle handle_nonce value hb full nb le
          value_made in
      let opens =
        open_row-seal_row c j s v m w now later (c.sha256 handle) (payload_for c j s db_now new tok)
          tok payload_nonce sealed kid refl refl pfull le row_made in
      let row = new_row c j s now db_now (c.sha256 handle) new tok (sealed, kid) in
      elim (Option-cases (get_session (c.sha256 handle) table)) [
        | inr (other, taken) ↦ absurd (ground arith)
        | inl fresh ↦
            let found = get_session-append (c.sha256 handle) row table fresh refl in
            let listed : after ≡ table ++ row ∷ [] = ground arith in
            let same : t.handle ≡ value = ground arith in
            record {
              tok = tok;
              row = row;
              current = current;
              has = has;
              names = rw same names;
              found = rw listed found;
              opens = opens;
              begun = refl;
              ends = refl;
            }
      ]

  stored :
      create c j s now db_now none new (ok handle) (ok handle_nonce) (ok payload_nonce) table
        ≡ (after, ok t)
      → Stored c j s db_now later new after t
  unfolding create prepare
  stored h = elim (Option-cases new.token) [
    | inl nothing ↦ absurd (ground arith)
    | inr (tok, has) ↦ elim (Result-cases (seal_handle c s.sealer now handle (ok handle_nonce))) [
      | inr (e, failed) ↦ absurd (ground arith)
      | inl (value, value_made) ↦
          elim (Result-cases (
            seal_row c j s now (c.sha256 handle) (payload_for c j s db_now new tok)
              (ok payload_nonce))) [
                | inr (e, failed) ↦ absurd (ground arith)
                | inl ((sealed, kid), row_made) ↦
                    create_keeps tok value sealed kid has value_made row_made h
              ]
    ]
  ]

live-before :
    (db_now : Time) (row : Row) → db_now < row.expires_at → live db_now (ok (some row)) ≡ ok row
live-before db_now row h = ground arith

live-after :
    (db_now : Time) (row : Row)
    → row.expires_at ≤ db_now
    → live db_now (ok (some row))
      ≡ err (wrap (lit "the session expired" ∷ []) (sentinel no_session))
live-after db_now row h = ground arith

module _ (c : Crypto) (j : RowCodec) (s : PgStore) (db_now later db_later : Time) (new : NewSession)
    (after : Table) (t : StoredToken) (q : Stored c j s db_now later new after t) where
  get-before :
      db_later < db_now + interval s.conf.max_session_age
      → get c j s later db_later none t.handle after
        ≡ ok (
            session_of t.handle
              (not q.current)
              q.row
              (stripped (payload_for c j s db_now new q.tok), without_extra q.tok))
  unfolding get
  get-before h =
      rw (q.names, q.found, live-before db_later q.row (omega (arith, q.ends, h)), q.opens) refl

  get-after :
      db_now + interval s.conf.max_session_age ≤ db_later
      → get c j s later db_later none t.handle after
        ≡ err (wrap (lit "the session expired" ∷ []) (sentinel no_session))
  unfolding get
  get-after h = rw (q.names, q.found, live-after db_later q.row (omega (arith, q.ends, h))) refl

-- Over an AEAD, a codec that undoes its own encoding and a keyring that was built, a session that was
-- created with 12-byte nonces is read back, while the table is as it was left and the database
-- answers, from its handle at that time or any later one of the process, with the database's time of
-- creation as its beginning and the token less its Extra map, as long as the database's clock has not
-- reached the absolute expiry; from then on it is refused as no session.
pub get-create :
    (c : Crypto) (j : RowCodec) (s : PgStore) (now db_now later db_later : Time) (new : NewSession)
    (handle handle_nonce payload_nonce : Bytes) (table after : Table) (t : StoredToken)
    → IsAead c
    → IsRowCodec j
    → IsKeyring s.sealer.keyring
    → IsBytes handle
    → length handle_nonce ≡ 12
    → IsBytes handle_nonce
    → length payload_nonce ≡ 12
    → now ≤ later
    → create c j s now db_now none new (ok handle) (ok handle_nonce) (ok payload_nonce) table
      ≡ (after, ok t)
    → (db_later < db_now + interval s.conf.max_session_age
        → (stale : Bool) × (tok : OauthToken) × (new.token ≡ some tok)
          × (get c j s later db_later none t.handle after
              ≡ ok (record {
                handle = t.handle;
                subject = new.subject;
                token = some (without_extra tok);
                id_token = new.id_token;
                issued_at = db_now;
                expires_at = db_now + interval s.conf.max_session_age;
                stale = stale;
              })))
      × (db_now + interval s.conf.max_session_age ≤ db_later
          → (e : Error) × (get c j s later db_later none t.handle after ≡ err e)
            × (is e no_session ≡ true))
get-create c j s now db_now later db_later new handle handle_nonce payload_nonce table after t v m w
      hb full nb pfull le h =
    let q =
      stored c j s now db_now later new handle handle_nonce payload_nonce table after t v m w hb
        full nb pfull le h in
    (
      λ alive. (
        not q.current,
        q.tok,
        q.has,
        rw (get-before c j s db_now later db_later new after t q alive, q.begun, q.ends) refl,
      ),
      λ gone. (
        wrap (lit "the session expired" ∷ []) (sentinel no_session),
        get-after c j s db_now later db_later new after t q gone,
        unfold is in refl,
      ),
    )
