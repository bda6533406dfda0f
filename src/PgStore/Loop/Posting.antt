-- ===== src/PgStore/Loop/Posting.antt =====
-- When `Refresh` posts a refresh token.
use howdah.Base.{◌≡◌, ◌⊎◌, List, [], ◌∷◌, ◌++◌, Option, none, some, nat_eq}
use howdah.Base.Bytes.{Bytes}
use howdah.Crypto.{Crypto}
use howdah.Errors.{Result, ok, err}
use howdah.Session.{OauthToken, StoredToken}
use howdah.PgStore.{PgStore, RowCodec, RowPayload, open_row}
use howdah.PgStore.Rows.{Row}
use howdah.PgStore.Refresh.{Pass, Outcome, done, Exchanging}

-- The token of a payload that opened.
abbrev pub opened_token : Result (RowPayload × OauthToken) → List OauthToken
opened_token (err e) = []
opened_token (ok (payload, tok)) = tok ∷ []

-- One list is the start of another.
abbrev pub IsPrefix : List OauthToken → List OauthToken → Type 0
IsPrefix calls all = (later : List OauthToken) × (all ≡ calls ++ later)

module _ (c : Crypto) (j : RowCodec) (s : PgStore) (t : StoredToken) (id : Bytes) where
  -- The token of the row whose lease is granted, where its payload opens.
  abbrev pub granted_token : Pass → Result (Option Row) → List OauthToken
  granted_token p (err e) = []
  granted_token p (ok none) = []
  granted_token p (ok (some lease)) = opened_token (open_row c j s p.opened_at id lease.payload)

  -- The tokens of the leases that are granted, in the order of the passes.
  abbrev pub granted_tokens : List Pass → List OauthToken
  granted_tokens [] = []
  granted_tokens (p ∷ passes) = granted_token p p.lease ++ granted_tokens passes

  -- A pass posts what its lease was granted for, or ends the loop and posts nothing.
  abbrev Posts : Pass → Exchanging Outcome → Type 0
  Posts p x =
      (x.0 ≡ granted_token p p.lease) ⊎ ((x.0 ≡ []) × ((r : Result StoredToken) × (x.1 ≡ done r)))
