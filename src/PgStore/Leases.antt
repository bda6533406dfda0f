-- ===== src/PgStore/Leases.antt =====
-- The refreshers of one session across the fleet, as steps on the session's row: those of the
-- statements TakeRefreshLease, CommitRefresh, FailRefresh and UpdateSession, by the database's clock.
pub mod Exclusion
pub mod Window
use howdah.Base.{ℕ, suc, ◌+◌, ◌≤◌, ◌≡◌, ◌≢◌, List, [], ◌∷◌, ◌++◌, true, false, Option, All}
use howdah.Base.Bytes.{Bytes}
use howdah.Base.Int.{pos_part}
use howdah.Clock.{Time}
use howdah.PgStore.{Conf, interval}
use howdah.PgStore.Rows.{Row, may_take, leased, sql_equal, refreshed, marked_failed}

-- A refresher that holds a payload of the row and is exchanging its refresh token. `version` counts
-- the payloads that the row has held.
pub record Refresher : Type 0 where
  pub nonce : Bytes
  pub started : Time
  pub version : ℕ

pub record Fleet : Type 0 where
  pub now : Time
  pub row : Row
  pub version : ℕ
  pub active : List Refresher

-- The two timeouts together, of the exchange and of the write.
abbrev pub window : Conf → ℕ
window c = pos_part c.token_request_timeout + pos_part c.write_timeout

module _ (c : Conf) where
  -- No more than the two timeouts has passed since the refresher was granted its lease.
  abbrev pub InTime : Fleet → Refresher → Type 0
  InTime f a = f.now ≤ a.started + window c

  abbrev pub taken : Fleet → Bytes → Fleet
  taken f nonce = record f {
    row = leased f.now nonce (interval c.refresh_lease) f.row;
    active = record { nonce = nonce; started = f.now; version = f.version } ∷ f.active;
  }

  abbrev pub rewritten : Fleet → Bytes → Bytes → Time → List Refresher → Fleet
  rewritten f key_id payload access_expires_at active = record f {
    row = refreshed f.now key_id payload access_expires_at f.row;
    version = suc f.version;
    active = active;
  }

  pub data Step : Fleet → Fleet → Type 0 where
    -- Time passes, also over the timeouts of refreshers that stay at work.
    passes : (f : Fleet) (later : Time) → f.now ≤ later → Step f (record f { now = later })
    -- The random nonce is none of those in use.
    takes :
        (f : Fleet) (nonce : Bytes) (seen_refreshed_at : Time) (seen_failed_at : Option Time)
        → All (λ a. a.nonce ≢ nonce) f.active
        → may_take f.now seen_refreshed_at seen_failed_at f.row ≡ true
        → Step f (taken f nonce)
    commits :
        (f : Fleet) (before after : List Refresher) (a : Refresher) (key_id payload : Bytes)
        (access_expires_at : Time)
        → f.active ≡ before ++ a ∷ after
        → sql_equal f.row.refresh_lease_nonce a.nonce ≡ true
        → Step f (rewritten f key_id payload access_expires_at (before ++ after))
    fails :
        (f : Fleet) (before after : List Refresher) (a : Refresher)
        → f.active ≡ before ++ a ∷ after
        → sql_equal f.row.refresh_lease_nonce a.nonce ≡ true
        → Step f (record f { row = marked_failed f.now f.row; active = before ++ after })
    -- A write that the fence rejects, a refresher that died, or one whose write failed.
    stops :
        (f : Fleet) (before after : List Refresher) (a : Refresher)
        → f.active ≡ before ++ a ∷ after
        → Step f (record f { active = before ++ after })
    -- `Update` by another request.
    updates :
        (f : Fleet) (key_id payload : Bytes) (access_expires_at : Time)
        → Step f (rewritten f key_id payload access_expires_at f.active)

  pub data Reachable (start : Fleet) : Fleet → Type 0 where
    here : Reachable start start
    next : (f g : Fleet) → Reachable start f → Step f g → Reachable start g
