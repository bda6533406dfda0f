-- ===== src/Session.antt =====
-- The data of token_store.go, and the oauth2.Token fields that the program reads and writes.
use howdah.Base.{Bool, Option, none}
use howdah.Base.Bytes.{Bytes}
use howdah.Base.Int.{ℤ}
use howdah.Clock.{Time}
use howdah.Errors.{Result}

-- `id_token` is the entry of the token's Extra map under that name, where it is a string.
pub record OauthToken : Type 0 where
  pub access_token : Bytes
  pub token_type : Bytes
  pub refresh_token : Bytes
  pub expiry : Time
  pub expires_in : ℤ
  pub id_token : Option Bytes

-- The token without its Extra map, which json.Marshal drops.
abbrev pub without_extra : OauthToken → OauthToken
without_extra t = record t { id_token = none }

pub record NewSession : Type 0 where
  pub subject : Bytes
  pub token : Option OauthToken
  pub id_token : Bytes

pub record StoredToken : Type 0 where
  pub handle : Bytes
  pub subject : Bytes
  pub token : Option OauthToken
  pub id_token : Bytes
  pub issued_at : Time
  pub expires_at : Time
  pub stale : Bool

-- A token store as one request finds it: what each method answers during the request. `Update` and
-- `DeleteExpired` are not called by the authentication component. A nil session is `none`.
pub record TokenStore : Type 0 where
  pub create : NewSession → Result StoredToken
  pub get : Bytes → Result StoredToken
  pub reseal : StoredToken → Result StoredToken
  pub delete : Bytes → Result (Unit {0})
  pub refresh : StoredToken → (OauthToken → Result OauthToken) → Result (Option StoredToken)
