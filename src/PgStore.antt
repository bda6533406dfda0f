-- ===== src/PgStore.antt =====
-- tokenstore/pgstore: the token store on Postgres. Its configuration and the payload of a row; the
-- rows and their queries are in PgStore.Rows, the operations in PgStore.Store and
-- PgStore.Changes, the refresh in
-- PgStore.Refresh, and the refreshers of the fleet in PgStore.Leases.
pub mod Rows
pub mod Store
pub mod Changes
pub mod Refresh
pub mod Leases
pub mod Loop
pub mod Lifetimes
use howdah.Base.{
  ℕ, ◌+◌, ◌*◌, ◌/◌, List, [], ◌∷◌, ◌++◌, Bool, true, false, not, Option, none, some, ◌==◌, nat_eq,
  if◌then◌else◌, ◌^◌,
}
use howdah.Base.Bytes.{Bytes}
use howdah.Base.Int.{ℤ, pos, negsuc, int_leb, int_eq}
use howdah.Base.Words.{add_int64}
use howdah.Clock.{Time, Duration, second, millisecond, hour}
use howdah.Crypto.{Crypto}
use howdah.Errors.{
  Text, Error, message, lit, wrap, wrap_both, sentinel, no_session, refresh_rejected, wrapped,
  Result, ok, err, ◌>>=◌,
}
use howdah.Keyring.{CookieKeyring}
use howdah.Sealer.{
  SessionSealer, KeyId, new_session_sealer, open_handle, seal_payload, open_payload,
}
use howdah.Session.{OauthToken}

abbrev pub handle_length : ℕ
handle_length = 32

abbrev pub lease_nonce_length : ℕ
lease_nonce_length = 16

abbrev pub refresh_poll_min : ℕ
refresh_poll_min = 25 * millisecond

abbrev pub refresh_poll_max : ℕ
refresh_poll_max = 500 * millisecond

abbrev pub max_lost_write_reads : ℕ
max_lost_write_reads = 2

abbrev pub refresh_failed_error : Error
refresh_failed_error =
    wrap (lit "a concurrent refresh of the session failed" ∷ []) (sentinel refresh_rejected)

pub record Conf : Type 0 where
  pub max_session_age : Duration
  pub refresh_lease : Duration
  pub token_request_timeout : Duration
  pub refresh_margin : Duration
  pub write_timeout : Duration
  pub refresh_wait : Duration
  pub refresh_wait_set : Bool

abbrev pub default_conf : Conf
default_conf = record {
  max_session_age = pos (12 * hour);
  refresh_lease = pos (20 * second);
  token_request_timeout = pos (10 * second);
  refresh_margin = pos (10 * second);
  write_timeout = pos (5 * second);
  refresh_wait = pos 0;
  refresh_wait_set = false;
}

-- `d.value <= 0` of one entry of the table
abbrev pub require_positive {ℓ} : {A : Type ℓ} → Duration → List Text → Result A → Result A
require_positive d name next =
    if int_leb d (pos 0) then err (message (name ++ (lit " must be positive" ∷ []))) else next

-- The sum of the two timeouts wraps.
unfoldable pub validate : Conf → Result (Unit {0})
validate c = require_positive c.max_session_age (lit "the maximum session age" ∷ []) (
    require_positive c.refresh_lease (lit "the refresh lease" ∷ []) (
      require_positive c.token_request_timeout (lit "the token request timeout" ∷ []) (
        require_positive c.refresh_wait (lit "the refresh wait" ∷ []) (
          require_positive c.write_timeout (lit "the write timeout" ∷ []) (
            if not (int_leb (pos 0) c.refresh_margin)
            then err (message (lit "the refresh margin must not be negative" ∷ []))
            else if int_leb c.refresh_lease (add_int64 c.token_request_timeout c.write_timeout)
            then err (
                message (
                  lit
                    "the refresh lease must be longer than the token request timeout and the write timeout together"
                  ∷ []))
            else ok tt)))))

pub record PgStore : Type 0 where
  pub sealer : SessionSealer
  pub conf : Conf

abbrev pub with_default_wait : Conf → Conf
with_default_wait c =
    if c.refresh_wait_set
    then c
    else record c { refresh_wait = add_int64 c.refresh_lease (pos refresh_poll_max) }

-- The options of `New`.
abbrev pub StoreOption : Type 0
StoreOption = Conf → Conf

abbrev pub with_max_session_age : Duration → StoreOption
with_max_session_age age c = record c { max_session_age = age }

abbrev pub with_refresh_lease : Duration → StoreOption
with_refresh_lease lease c = record c { refresh_lease = lease }

abbrev pub with_token_request_timeout : Duration → StoreOption
with_token_request_timeout timeout c = record c { token_request_timeout = timeout }

abbrev pub with_refresh_margin : Duration → StoreOption
with_refresh_margin margin c = record c { refresh_margin = margin }

abbrev pub with_refresh_wait : Duration → StoreOption
with_refresh_wait wait c = record c { refresh_wait = wait; refresh_wait_set = true }

abbrev pub with_write_timeout : Duration → StoreOption
with_write_timeout timeout c = record c { write_timeout = timeout }

abbrev pub apply_options : List StoreOption → Conf → Conf
apply_options [] c = c
apply_options (option ∷ options) c = apply_options options (option c)

abbrev pub new_with : Option CookieKeyring → Bytes → Conf → Result PgStore
new_with keyring cookie_name c = do
  valid ← validate c
  sealer ← wrapped (lit "create the session sealer" ∷ []) (new_session_sealer keyring cookie_name)
  ok (record { sealer = sealer; conf = c })

-- `New`; `has_db` says whether there is a database.
unfoldable pub new_store : Bool → Option CookieKeyring → Bytes → List StoreOption → Result PgStore
unfolding validate new_session_sealer
new_store false keyring cookie_name options = err (message (lit "a database is required" ∷ []))
new_store true keyring cookie_name options =
    new_with keyring cookie_name (with_default_wait (apply_options options default_conf))

-- The Microseconds of `interval`, in nanoseconds; a negative duration has been refused.
abbrev pub interval : Duration → ℕ
interval (pos n) = n / 1000 * 1000
interval (negsuc n) = 0

abbrev pub session_payload_v1 : ℤ
session_payload_v1 = pos 1

pub record RowPayload : Type 0 where
  pub version : ℤ
  pub subject : Bytes
  pub token : Option OauthToken
  pub id_token : Bytes

-- encoding/json on the payload.
pub record RowCodec : Type 0 where
  pub marshal : RowPayload → Result Bytes
  pub unmarshal : Bytes → Result RowPayload

module _ (c : Crypto) (j : RowCodec) (s : PgStore) (now : Time) where
  unfoldable pub seal_row : Bytes → RowPayload → Result Bytes → Result (Bytes × KeyId)
  unfolding seal_payload
  seal_row id payload random = do
    data_bytes ← wrapped (lit "marshal the session payload" ∷ []) (j.marshal payload)
    seal_payload c s.sealer now id data_bytes random

  abbrev pub gone : Error → Error
  gone e = wrap_both (sentinel no_session) [] e

  -- The payload, with the token that it is checked to have.
  abbrev pub with_token : RowPayload → Option OauthToken → Result (RowPayload × OauthToken)
  with_token payload none =
      err (wrap (lit "the session payload carries no token" ∷ []) (sentinel no_session))
  with_token payload (some tok) = ok (payload, tok)

  abbrev pub versioned : Result RowPayload → Result (RowPayload × OauthToken)
  versioned (err e) =
      err (wrap_both (sentinel no_session) (lit "unmarshal the session payload" ∷ []) e)
  versioned (ok payload) =
      if payload.version == session_payload_v1
      then with_token payload payload.token
      else err (wrap (lit "unsupported session payload version" ∷ []) (sentinel no_session))

  unfoldable pub open_row : Bytes → Bytes → Result (RowPayload × OauthToken)
  unfolding open_payload
  open_row id sealed = elim (open_payload c s.sealer now id sealed) [
    | err e ↦ err (gone e)
    | ok o ↦ versioned (j.unmarshal o.plaintext)
  ]

  unfoldable pub row_id : Bytes → Result (Bytes × Bool)
  unfolding open_handle
  row_id handle = elim (open_handle c s.sealer now handle) [
    | err e ↦ err (gone e)
    | ok (plaintext, current) ↦ ok (c.sha256 plaintext, current)
  ]
