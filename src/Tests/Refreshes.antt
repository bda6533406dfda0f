-- ===== src/Tests/Refreshes.antt =====
-- Refreshes of the tests' row: leases of the fleet, and the loop of one call.
use howdah.Base.{
  [], ◌∷◌, ◌≡◌, ◌<◌, ◌^◌, refl, arith, none, some, true, false, All, AllPairs, inl, inr, list_beq,
}
use howdah.Base.Bytes.{bytes, bytes_eq}
use howdah.Base.Dict.{lookup}
use howdah.Base.Int.{pos}
use howdah.Clock.{Time}
use howdah.Errors.{Result, ok, err, is, lease_lost, sentinel, message, lit}
use howdah.Envelope.{open_kind_raw, cookie_envelope_aad}
use howdah.Encoding.Hex.{hex}
use howdah.Keyring.{sealing_key, eligible}
use howdah.Sealer.{open_payload, payload_domain, new_session_sealer}
use howdah.Session.{OauthToken, StoredToken}
use howdah.Envelope.Domain.{cookie_domain}
use howdah.PgStore.{
  PgStore, new_store, with_refresh_lease, interval, Conf, validate, default_conf, with_default_wait,
  open_row, RowPayload,
}
use howdah.PgStore.Leases.{Fleet, taken, rewritten, Reachable, here, next, takes, updates, window}
use howdah.PgStore.Leases.Exclusion.{DifferentTokens, HoldsLease, Reachable-exclusive}
use howdah.PgStore.Leases.Window.{new_store-window}
use howdah.PgStore.Refresh.{Pass, LoopState, done, again, run_exchange, refresh_loop, start_state}
use howdah.PgStore.Loop.{refresh_loop-unending}
use howdah.PgStore.Loop.Ending.{refresh_loop-ends}
use howdah.PgStore.Loop
use howdah.Tests.Toy.{repeat, toy, toy_seal, toy_open, tag, sum, toy_keyring}
use howdah.Tests.Rows.{token_of, row_codec, pg_store, toy_sealer, row_key, toy_row, toy_session}

abbrev conf : Conf
conf = with_default_wait default_conf

accepted : validate conf ≡ ok tt
unfolding validate
accepted = refl

abbrev idle : Fleet
idle = record { now = 2000; row = toy_row; version = 0; active = [] }

abbrev first_taken : Fleet
first_taken = taken conf idle (bytes "one")

abbrev updated : Fleet
updated = rewritten conf first_taken [] (bytes "new") 9 first_taken.active

abbrev both : Fleet
both = taken conf updated (bytes "two")

run : Reachable conf idle both
run =
    next updated both
      (next first_taken updated
        (next idle first_taken here (takes idle (bytes "one") 1000 none tt refl))
        (updates first_taken [] (bytes "new") 9))
      (takes updated (bytes "two") 2000 none (ground arith) refl)

Reachable-exclusive_example :
    AllPairs (DifferentTokens conf both) both.active × All (HoldsLease conf both) both.active
Reachable-exclusive_example =
    Reachable-exclusive conf idle both accepted (ground arith) refl refl run

-- Two timeouts whose sum wraps are accepted with any lease.
wraps :
    validate (record conf { token_request_timeout = pos (2 ^ 62); write_timeout = pos (2 ^ 62) })
    ≡ ok tt
unfolding validate
wraps = refl

-- The lease is held by another refresher for as long as this call waits.
abbrev waiting : Time → Pass
waiting now = record {
  now = now;
  read = ok (some toy_row);
  db_now = 2000;
  opened_at = 180;
  until_at = 180;
  nonce = ok (bytes "mine");
  lease = ok none;
  waited = ok tt;
  exchanged = ok none;
  random = ok (repeat 12 9);
  commit = ok 0;
  fail = ok 0;
}

-- The lease is granted, the exchange fails, and another refresher has taken over by then.
abbrev losing : Pass
losing = record (waiting 99_000_000_000) {
  lease = ok (some toy_row);
  exchanged = err (message (lit "invalid_grant" ∷ []));
}

refresh_loop-ends_example :
    (r : Result StoredToken) × ((refresh_loop toy row_codec pg_store toy_session row_key
        (start_state pg_store 0)
        (waiting 0 ∷ waiting 1000 ∷ waiting 99_000_000_000 ∷ [])).1
      ≡ done r)
refresh_loop-ends_example =
    refresh_loop-ends toy row_codec pg_store toy_session row_key (start_state pg_store 0)
      (waiting 0) (waiting 1000 ∷ waiting 99_000_000_000 ∷ []) (λ lease e h. cc)
      ((λ lease e h. cc), ((λ lease e h. cc), tt)) refl (inr (inl (omega arith)))

abbrev opened : RowPayload × OauthToken
opened = (
  record { version = pos 1; subject = bytes "user"; token = some (token_of 1); id_token = [] },
  token_of 1,
)

row_opens : open_row toy row_codec pg_store 180 row_key toy_row.payload ≡ ok opened
unfolding open_row open_payload open_kind_raw sealing_key eligible lookup toy toy_seal toy_open tag
    sum list_beq cookie_envelope_aad payload_domain hex
row_opens = refl

loses :
    (run_exchange toy row_codec pg_store toy_session row_key losing toy_row).1
    ≡ err (sentinel lease_lost)
unfolding run_exchange
loses = rw (row_opens, run_exchange) refl

posts : (run_exchange toy row_codec pg_store toy_session row_key losing toy_row).0 ≡ token_of 1 ∷ []
unfolding run_exchange
posts = rw (row_opens, run_exchange) refl

abbrev lost_once : LoopState
lost_once = record {
  first = false;
  seen_refreshed_at = 1000;
  seen_failed_at = none;
  backoff = 25;
  deadline = 1;
  lost_write_reads = 1;
}

refresh_loop-unending_example :
    (v : LoopState) × ((refresh_loop toy row_codec pg_store toy_session row_key lost_once
        (Loop.passes 3 losing)).1
      ≡ again v)
refresh_loop-unending_example =
    refresh_loop-unending toy row_codec pg_store toy_session row_key losing toy_row toy_row opened
      (sentinel lease_lost) (bytes "mine") refl row_opens refl refl loses (unfold is in refl) 3
      lost_once refl (omega arith) refl refl

abbrev made : PgStore
made = record {
  sealer = toy_sealer;
  conf = with_default_wait (record default_conf { refresh_lease = pos 16_000_000_000 });
}

store_made :
    new_store true (some toy_keyring) (bytes "sid") (with_refresh_lease (pos 16_000_000_000) ∷ [])
    ≡ ok made
unfolding new_store new_session_sealer validate cookie_domain
store_made = refl

new_store-window_example : window made.conf < interval made.conf.refresh_lease
new_store-window_example =
    new_store-window (some toy_keyring) (bytes "sid") (with_refresh_lease (pos 16_000_000_000) ∷ [])
      made store_made (ground arith) refl
