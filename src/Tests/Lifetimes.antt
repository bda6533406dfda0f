-- ===== src/Tests/Lifetimes.antt =====
-- A session that is read before and after its lease is taken, and one that is swept.
use howdah.Base.{
  [], ◌∷◌, ◌≡◌, ◌<◌, ◌+◌, refl, none, some, true, false, ap, subst, list_beq, inl, inr, sym, ◌∙◌,
  arith,
}
use howdah.Base.Bytes.{bytes_eq, bytes}
use howdah.Base.Int.{pos}
use howdah.Base.Dict.{lookup}
use howdah.Encoding.Base64.{
  raw_url_encode, raw_url_decode, groups_raw, skip_breaks, encode_raw, char_of, digit_of,
}
use howdah.Encoding.Hex.{hex}
use howdah.Envelope.{open_kind, open_kind_raw, cookie_envelope_aad}
use howdah.Errors.{ok}
use howdah.Keyring.{sealing_key, eligible}
use howdah.Sealer.{open_handle, open_payload}
use howdah.Session.{StoredToken, without_extra}
use howdah.PgStore.{row_id, open_row}
use howdah.PgStore.Changes.{batch_size, delete_expired}
use howdah.PgStore.Changes.Sweeping.{IsKeyed}
use howdah.PgStore.Changes.Draining.{IsDrained, drain, drain-IsDrained}
use howdah.PgStore.Rows.{Row, get_session, take_refresh_lease, update_where}
use howdah.PgStore.Store.{get}
use howdah.PgStore.Lifetimes.{Operation, creates, takes_lease, run, Reachable, empty, step, age}
use howdah.PgStore.Lifetimes.Bound.{get-run}
use howdah.Tests.Rows.{
  token_of, row_codec, pg_store, nonce, handle, new_session, row_key, value, toy_row, toy_session,
  created,
}
use howdah.Tests.Toy.{toy, toy_seal, toy_open, tag, sum, toy_hash}

abbrev login : Operation
login = creates 150 1000 none new_session (ok handle) (ok nonce) (ok nonce)

abbrev lease : Operation
lease = takes_lease 2500 row_key nonce 30 1000 none

reached : Reachable toy row_codec pg_store (toy_row ∷ [])
unfolding run
reached = subst (Reachable toy row_codec pg_store) (ap (λ r. r.0) created) (step login [] empty)

abbrev seen : StoredToken
seen = record toy_session { token = some (without_extra (token_of 1)) }

read : get toy row_codec pg_store 180 2000 none value (toy_row ∷ []) ≡ ok seen
unfolding get get_session row_id open_row open_payload open_handle open_kind open_kind_raw
    sealing_key eligible lookup toy toy_seal toy_open tag sum list_beq cookie_envelope_aad
    raw_url_decode raw_url_encode groups_raw skip_breaks encode_raw char_of digit_of toy_hash hex
read = refl

read_again :
    get toy row_codec pg_store 190 3000 none value (run toy row_codec pg_store lease (toy_row ∷ []))
    ≡ ok seen
unfolding run take_refresh_lease update_where get get_session row_id open_row open_payload
    open_handle open_kind open_kind_raw sealing_key eligible lookup toy toy_seal toy_open tag sum
    list_beq cookie_envelope_aad raw_url_decode raw_url_encode groups_raw skip_breaks encode_raw
    char_of digit_of toy_hash hex
read_again = refl

get-run_example :
    (seen.issued_at ≡ seen.issued_at)
    × (seen.expires_at ≡ seen.expires_at)
    × (seen.expires_at ≡ seen.issued_at + age toy row_codec pg_store)
    × (3000 < seen.issued_at + age toy row_codec pg_store)
get-run_example =
    get-run toy row_codec pg_store 180 2000 none value (toy_row ∷ []) seen lease 190 3000 none seen
      reached read read_again

abbrev old_row : Row
old_row = record toy_row { id = bytes "old"; expires_at = 2000 }

two_rows : IsKeyed (old_row ∷ toy_row ∷ [])
two_rows a b (inl e) (inl f) same = e ∙ sym f
two_rows a b (inl e) (inr (inl f)) same = ground (arith, ap (λ r. r.id) e, ap (λ r. r.id) f, same)
two_rows a b (inr (inl e)) (inl f) same = ground (arith, ap (λ r. r.id) e, ap (λ r. r.id) f, same)
two_rows a b (inr (inl e)) (inr (inl f)) same = e ∙ sym f
two_rows a b (inr (inr i)) j same = elim i [ ]
two_rows a b (inl e) (inr (inr j)) same = elim j [ ]
two_rows a b (inr (inl e)) (inr (inr j)) same = elim j [ ]

one_by_one : batch_size (pos 1) ≡ ok 1
unfolding batch_size
one_by_one = refl

drain-IsDrained_example :
    IsDrained
      (λ row. false)
      2000
      (pos 1)
      0
      one_by_one
      (old_row ∷ toy_row ∷ [])
      (drain (λ row. false) 2000 (pos 1) 0 one_by_one 3 (old_row ∷ toy_row ∷ []))
drain-IsDrained_example =
    drain-IsDrained (λ row. false) 2000 (pos 1) 0 one_by_one 3 (old_row ∷ toy_row ∷ []) two_rows
      (omega arith)

-- The expired row is gone.
old_row_gone :
    drain (λ row. false) 2000 (pos 1) 0 one_by_one 3 (old_row ∷ toy_row ∷ []) ≡ (toy_row ∷ [], true)
unfolding drain delete_expired list_beq
old_row_gone = refl
