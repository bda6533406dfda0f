-- ===== src/PgStore/Refresh.antt =====
-- `Refresh` of refresh.go. Other requests act between its statements, so what each statement
-- answers is given: a Pass has the answers that one pass of the loop may read. The calls of the
-- exchange are an output, each with the token that it is called with.
use howdah.Base.{
  ℕ, ◌+◌, ◌-◌, ◌*◌, min, List, [], ◌∷◌, ◌++◌, Bool, true, false, not, ◌&&◌, Option, none, some,
  ◌==◌, nat_eq, if◌then◌else◌,
}
use howdah.Base.Bytes.{Bytes}
use howdah.Base.Int.{int_ltb}
use howdah.Clock.{Time, after, before, time_sub, add_duration}
use howdah.Crypto.{Crypto}
use howdah.Errors.{
  Error, message, lit, wrap, wrap_both, sentinel, lease_lost, refresh_timeout, Result, ok, err,
  ◌>>=◌, is,
}
use howdah.Session.{OauthToken, StoredToken}
use howdah.PgStore.{
  PgStore, RowCodec, RowPayload, seal_row, open_row, row_id, refresh_failed_error, refresh_poll_min,
  refresh_poll_max, max_lost_write_reads,
}
use howdah.PgStore.Rows.{Row}
use howdah.PgStore.Store.{live, session_of}

-- The answers of one pass: the times that it reads, the row and the database's time, the random
-- bytes, the statements' results, and whether the request still waits.
pub record Pass : Type 0 where
  pub now : Time
  pub read : Result (Option Row)
  pub db_now : Time
  pub opened_at : Time
  pub until_at : Time
  pub nonce : Result Bytes
  pub lease : Result (Option Row)
  pub waited : Result (Unit {0})
  pub exchanged : Result (Option OauthToken)
  pub random : Result Bytes
  pub commit : Result ℕ
  pub fail : Result ℕ

pub record LoopState : Type 0 where
  pub first : Bool
  pub seen_refreshed_at : Time
  pub seen_failed_at : Option Time
  pub backoff : ℕ
  pub deadline : Time
  pub lost_write_reads : ℕ

pub data Outcome : Type 0 where
  done : Result StoredToken → Outcome
  again : LoopState → Outcome

-- The tokens that the exchange was called with, in order, and what it came to.
abbrev pub Exchanging : Type 0 → Type 0
Exchanging A = List OauthToken × A

abbrev pub over : Result StoredToken → Exchanging Outcome
over r = ([], done r)

abbrev pub advanced : Option Time → Option Time → Bool
advanced none seen = false
advanced (some now) none = true
advanced (some now) (some seen) = after now seen

module _ (c : Crypto) (j : RowCodec) (s : PgStore) (t : StoredToken) (id : Bytes) where
  abbrev pub marked : Error → Result ℕ → Error
  marked e (err mark) = wrap_both e [] (
      wrap (lit "record the failed refresh" ∷ [])
        (wrap (lit "mark the refresh as failed" ∷ []) mark))
  marked e (ok rows) = if rows == 0 then sentinel lease_lost else e

  -- `refreshFailed`
  abbrev pub refresh_failed : Pass → Error → Error
  refresh_failed p cause = marked (wrap (lit "exchange the refresh token" ∷ []) cause) p.fail

  abbrev pub committed : Pass → Row → RowPayload → OauthToken → Result ℕ → Result StoredToken
  committed p lease payload tok (err e) = err (wrap (lit "write the refreshed session" ∷ []) e)
  committed p lease payload tok (ok rows) =
      if rows == 0
      then err (sentinel lease_lost)
      else ok (session_of t.handle t.stale lease (payload, tok))

  abbrev pub exchanged_with :
      Pass → Row → RowPayload → Result (Option OauthToken) → Result StoredToken
  exchanged_with p lease payload (err e) = err (refresh_failed p e)
  exchanged_with p lease payload (ok none) =
      err (refresh_failed p (message (lit "the exchange returned no token" ∷ [])))
  exchanged_with p lease payload (ok (some tok)) = do
    sealed ← seal_row c j s p.opened_at id (record payload { token = some tok }) p.random
    committed p lease payload tok p.commit

  unfoldable pub run_exchange : Pass → Row → Exchanging (Result StoredToken)
  unfolding open_row seal_row
  run_exchange p lease = elim (open_row c j s p.opened_at id lease.payload) [
    | err e ↦ ([], err e)
    | ok (payload, tok) ↦ (tok ∷ [], exchanged_with p lease payload p.exchanged)
  ]

  -- A lost lease is read past the deadline, the rest is the call's result.
  abbrev pub ran_to : LoopState → Result StoredToken → Outcome
  ran_to st (ok session) = done (ok session)
  ran_to st (err e) =
      if is e lease_lost
      then again
          (record st { lost_write_reads = min (st.lost_write_reads + 1) max_lost_write_reads })
      else done (err e)

  abbrev pub ran : LoopState → Exchanging (Result StoredToken) → Exchanging Outcome
  ran st exchanged = (exchanged.0, ran_to st exchanged.1)

  abbrev pub with_lease : LoopState → Pass → Result (Option Row) → Exchanging Outcome
  with_lease st p (err e) = over (err (wrap (lit "take the refresh lease" ∷ []) e))
  with_lease st p (ok none) = elim p.waited [
    | err e ↦ over (err (wrap (lit "wait for a concurrent refresh" ∷ []) e))
    | ok u ↦ ([], again (record st { backoff = min (2 * st.backoff) refresh_poll_max }))
  ]
  with_lease st p (ok (some lease)) = ran st (run_exchange p lease)

  abbrev pub ask : LoopState → Pass → Exchanging Outcome
  ask st p = elim p.nonce [
    | err e ↦ over (err (wrap (lit "generate a lease nonce" ∷ []) e))
    | ok nonce ↦ with_lease st p p.lease
  ]

  abbrev pub seen_by : LoopState → Row → LoopState
  seen_by st row = record st {
    first = false;
    seen_refreshed_at = row.refreshed_at;
    seen_failed_at = row.refresh_failed_at;
  }

  -- The switch of the loop. Only the first pass sets what was seen.
  abbrev pub examine : LoopState → Pass → Row → RowPayload × OauthToken → Exchanging Outcome
  examine st p row (payload, tok) =
      if st.first
      then if int_ltb s.conf.refresh_margin (time_sub tok.expiry p.until_at)
        then over (ok (session_of t.handle t.stale row (payload, tok)))
        else ask (seen_by st row) p
      else if after row.refreshed_at st.seen_refreshed_at
      then over (ok (session_of t.handle t.stale row (payload, tok)))
      else if advanced row.refresh_failed_at st.seen_failed_at
      then over (err refresh_failed_error)
      else ask st p

  abbrev pub opened_row :
      LoopState → Pass → Row → Result (RowPayload × OauthToken) → Exchanging Outcome
  opened_row st p row (err e) = over (err e)
  opened_row st p row (ok opened) = examine st p row opened

  abbrev pub read_row : LoopState → Pass → Result Row → Exchanging Outcome
  read_row st p (err e) = over (err e)
  read_row st p (ok row) = opened_row st p row (open_row c j s p.opened_at id row.payload)

  -- The read that a lost write-back bought is spent.
  abbrev pub spent : LoopState → LoopState
  spent st = record st { lost_write_reads = st.lost_write_reads - 1 }

  unfoldable pub refresh_pass : LoopState → Pass → Exchanging Outcome
  unfolding open_row run_exchange is time_sub
  refresh_pass st p =
      if not st.first && st.lost_write_reads == 0 && not (before p.now st.deadline)
      then over (err (sentinel refresh_timeout))
      else read_row (spent st) p (live p.db_now p.read)

  -- The loop over the answers of successive passes; `again` where they have not ended it.
  unfoldable pub refresh_loop : LoopState → List Pass → Exchanging Outcome
  unfolding refresh_pass
  refresh_loop st [] = ([], again st)
  refresh_loop st (p ∷ passes) =
      let (calls, outcome) = refresh_pass st p in
      elim outcome [
        | done r ↦ (calls, done r)
        | again next ↦ let (more, last) = refresh_loop next passes in (calls ++ more, last)
      ]

abbrev pub start_state : PgStore → Time → LoopState
start_state s now = record {
  first = true;
  seen_refreshed_at = 0;
  seen_failed_at = none;
  backoff = refresh_poll_min;
  deadline = add_duration now s.conf.refresh_wait;
  lost_write_reads = 0;
}

module _ (c : Crypto) (j : RowCodec) (s : PgStore) where
  unfoldable pub refresh : Option StoredToken → Time → List Pass → Exchanging Outcome
  unfolding row_id refresh_loop
  refresh none now passes = over (err (message (lit "a session is required" ∷ [])))
  refresh (some t) now passes = elim (row_id c j s now t.handle) [
    | err e ↦ over (err e)
    | ok (id, current) ↦ refresh_loop c j s t id (start_state s now) passes
  ]
