-- ===== src/Tests/Rows.antt =====
-- A session in a row, over a codec for the tests' payloads.
use howdah.Base.{
  ℕ, [], ◌∷◌, ◌≡◌, ◌≤◌, ◌<◌, ◌&&◌, refl, arith, Bool, Option, none, some, true, false, ◌==◌, ==_iff,
  nat_eq, if◌then◌else◌, list_beq, subst, sym,
}
use howdah.Base.Bytes.{bytes_eq, Bytes, bytes}
use howdah.Base.Int.{ℤ, pos, int_eq}
use howdah.Clock.{Time}
use howdah.Encoding.Base64.{raw_url_encode}
use howdah.Errors.{Error, Result, ok, err, is, no_session, message, lit}
use howdah.Keyring.{sealing_key, eligible}
use howdah.Envelope.{seal_with, seal_kind, seal_kind_raw, session_kind_payload, session_kind_handle}
use howdah.Session.{OauthToken, NewSession, StoredToken, without_extra}
use howdah.Sealer.{SessionSealer, seal_handle, seal_payload, payload_domain}
use howdah.PgStore.{
  PgStore, RowCodec, RowPayload, session_payload_v1, default_conf, with_default_wait, seal_row,
}
use howdah.PgStore.Changes.{delete}
use howdah.PgStore.Changes.Removing.{get-delete}
use howdah.Encoding.Base64.{raw_url_decode, groups_raw, skip_breaks, encode_raw, char_of, digit_of}
use howdah.Envelope.{open_kind, open_kind_raw, cookie_envelope_aad}
use howdah.Sealer.{open_handle}
use howdah.PgStore.{row_id}
use howdah.Tests.Toy.{toy_seal, toy_open, tag}
use howdah.Base.Dict.{lookup}
use howdah.PgStore.Rows.{Table, Row, create_session, get_session}
use howdah.PgStore.Store.{create, prepare, get}
use howdah.PgStore.Store.Reading.{IsRowCodec, stripped, get-create}
use howdah.Tests.Toy.{
  repeat, toy, toy_keyring, old_entry, toy-IsAead, toy_keyring-IsKeyring, toy_hash, sum,
}

abbrev pub token_of : ℕ → OauthToken
token_of n = record {
  access_token = n ∷ [];
  token_type = [];
  refresh_token = [];
  expiry = 0;
  expires_in = pos 0;
  id_token = none;
}

abbrev refused_payload : Result Bytes
refused_payload = err (message (lit "not a payload of the tests" ∷ []))

abbrev marshal_token : RowPayload → Option OauthToken → Result Bytes
marshal_token p none = refused_payload
marshal_token p (some t) = elim t.access_token [
  | [] ↦ refused_payload
  | n ∷ [] ↦
      if p.version == session_payload_v1
        && p.subject == bytes "user"
        && p.id_token == []
        && t.token_type == []
        && t.refresh_token == []
        && t.expiry == 0
        && t.expires_in == pos 0
      then ok (n ∷ [])
      else refused_payload
  | n ∷ m ∷ rest ↦ refused_payload
]

abbrev unmarshal_text : Bytes → Result RowPayload
unmarshal_text [] = err (message (lit "empty" ∷ []))
unmarshal_text (n ∷ rest) = ok (record {
  version = session_payload_v1;
  subject = bytes "user";
  token = some (token_of n);
  id_token = [];
})

abbrev pub row_codec : RowCodec
row_codec = record { marshal = λ p. marshal_token p p.token; unmarshal = unmarshal_text }

module _ (version : ℤ) (subject kept kind again : Bytes) (expiry : Time) (left : ℤ)
    (id : Option Bytes) where
  abbrev written : Bytes → OauthToken
  written access = record {
    access_token = access;
    token_type = kind;
    refresh_token = again;
    expiry = expiry;
    expires_in = left;
    id_token = id;
  }

  abbrev around : Bytes → RowPayload
  around access = record {
    version = version;
    subject = subject;
    token = some (written access);
    id_token = kept;
  }

  unmarshal-marshal_written :
      (access text : Bytes)
      → marshal_token (around access) (some (written access)) ≡ ok text
      → unmarshal_text text ≡ ok (stripped (around access))
  unmarshal-marshal_written [] text h = cc
  unmarshal-marshal_written (n ∷ m ∷ rest) text h = cc
  unmarshal-marshal_written (n ∷ []) text h = ground (
    arith,
    ==_iff version session_payload_v1,
    ==_iff subject (bytes "user"),
    ==_iff kept [],
    ==_iff kind [],
    ==_iff again [],
    ==_iff expiry 0,
    ==_iff left (pos 0),
  )

unmarshal-marshal_token :
    (p : RowPayload) (o : Option OauthToken) (text : Bytes)
    → p.token ≡ o
    → marshal_token p o ≡ ok text
    → unmarshal_text text ≡ ok (stripped p)
unmarshal-marshal_token p none text has h = cc
unmarshal-marshal_token p (some t) text has h =
    subst (λ o. unmarshal_text text ≡ ok (stripped (record p { token = o }))) (sym has)
      (unmarshal-marshal_written p.version p.subject p.id_token t.token_type t.refresh_token
        t.expiry t.expires_in t.id_token t.access_token text h)

pub row_codec-IsRowCodec : IsRowCodec row_codec
row_codec-IsRowCodec = record {
  unmarshal-marshal = λ p text h. unmarshal-marshal_token p p.token text refl h;
}

abbrev pub toy_sealer : SessionSealer
toy_sealer = record {
  keyring = toy_keyring;
  cookie_domain = bytes "cookie:sid";
  store_domain = bytes "store:sid";
}

abbrev pub pg_store : PgStore
pg_store = record { sealer = toy_sealer; conf = with_default_wait default_conf }

abbrev pub nonce : Bytes
nonce = repeat 12 9

abbrev pub handle : Bytes
handle = repeat 32 5

abbrev pub new_session : NewSession
new_session = record { subject = bytes "user"; token = some (token_of 1); id_token = [] }

abbrev pub row_key : Bytes
row_key = repeat 32 160

abbrev pub value : Bytes
value =
    raw_url_encode (seal_with toy old_entry session_kind_handle (bytes "cookie:sid") handle nonce)

abbrev pub toy_row : Row
toy_row = record {
  id = row_key;
  subject = bytes "user";
  key_id = repeat 8 140;
  payload =
      seal_with toy old_entry session_kind_payload (payload_domain toy_sealer row_key) (1 ∷ [])
        nonce;
  access_expires_at = 0;
  refresh_lease_until = none;
  refresh_lease_nonce = none;
  refresh_failed_at = none;
  refreshed_at = 1000;
  created_at = 1000;
  expires_at = 43_200_000_001_000;
}

abbrev pub toy_session : StoredToken
toy_session = record {
  handle = value;
  subject = bytes "user";
  token = some (token_of 1);
  id_token = [];
  issued_at = 1000;
  expires_at = 43_200_000_001_000;
  stale = false;
}

pub created :
    create toy row_codec pg_store 150 1000 none new_session (ok handle) (ok nonce) (ok nonce) []
    ≡ (toy_row ∷ [], ok toy_session)
unfolding create prepare create_session seal_handle seal_row seal_payload seal_kind seal_kind_raw
    sealing_key eligible list_beq toy toy_hash sum get_session
created = refl

get-create_example :
    (2000 < 43_200_000_001_000
      → (stale : Bool) × (tok : OauthToken) × (some (token_of 1) ≡ some tok)
        × (get toy row_codec pg_store 180 2000 none value (toy_row ∷ [])
            ≡ ok (record {
              handle = value;
              subject = bytes "user";
              token = some (without_extra tok);
              id_token = [];
              issued_at = 1000;
              expires_at = 43_200_000_001_000;
              stale = stale;
            })))
    × (43_200_000_001_000 ≤ 2000
        → (e : Error) × (get toy row_codec pg_store 180 2000 none value (toy_row ∷ []) ≡ err e)
          × (is e no_session ≡ true))
get-create_example =
    get-create toy row_codec pg_store 150 1000 180 2000 new_session handle nonce nonce []
      (toy_row ∷ []) toy_session toy-IsAead row_codec-IsRowCodec toy_keyring-IsKeyring
      (ground arith) refl (ground arith) refl (omega arith) created

row_named : row_id toy row_codec pg_store 180 value ≡ ok (row_key, true)
unfolding row_id open_handle open_kind open_kind_raw sealing_key eligible lookup toy toy_seal
    toy_open tag sum list_beq cookie_envelope_aad raw_url_decode raw_url_encode groups_raw
    skip_breaks encode_raw char_of digit_of toy_hash
row_named = refl

get-delete_example :
    (after : Table) × (delete toy row_codec pg_store 180 none value (toy_row ∷ []) ≡ (after, ok tt))
    × ((e : Error) × (get toy row_codec pg_store 260 2000 none value after ≡ err e)
        × (is e no_session ≡ true))
get-delete_example =
    get-delete toy row_codec pg_store 180 260 2000 value row_key true (toy_row ∷ []) row_named
