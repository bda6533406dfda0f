-- ===== src/Auth/Contexts.antt =====
-- The values that application_auth.go puts in a request's context, and the accessors that read them.
-- `with_headers` is the shim's WithHTTPRequestHeaders with an Authorization header.
use howdah.Base.{ℕ, [], ◌∷◌, ◌++◌, Option, none, some}
use howdah.Base.Bytes.{Bytes, bytes}
use howdah.Errors.{message, lit, wrapped, Result, ok, err, ◌>>=◌}
use howdah.Errors.Http.{new_http_error, status_internal_server_error}
use howdah.Session.{OauthToken}

-- What the verifiers give of a JWT.
pub record IdToken : Type 0 where
  pub subject : Bytes
  pub nonce : Bytes
  pub raw_claims : Bytes

-- The values of a context under the keys that the component has, and the rest of it.
pub record Context : Type 0 where
  pub outer : ℕ
  pub bearer_token : Option Bytes
  pub token : Option OauthToken
  pub access_token : Option IdToken

abbrev pub with_bearer_token : Context → Bytes → Context
with_bearer_token ctx tok = record ctx { bearer_token = some tok }

abbrev pub authorization_header : Context → Option Bytes
authorization_header ctx = elim ctx.bearer_token [
  | none ↦ none
  | some tok ↦ some (bytes "Bearer " ++ tok)
]

module _ (with_headers : Context → Bytes → Result Context) where
  abbrev pub headers_failed : Result Context → Result Context
  headers_failed (ok ctx) = ok ctx
  headers_failed (err e) = err (
      new_http_error status_internal_server_error "FailedToSetUpSession" "Failed to set up session"
        e)

  unfoldable pub session_context : Context → OauthToken → IdToken → Result Context
  session_context ctx tok id = do
    headed ← headers_failed (
        with_headers (with_bearer_token ctx tok.access_token) (bytes "Bearer " ++ tok.access_token))
    ok (record headed { token = some tok; access_token = some id })

-- `AccessToken`, `Token` and `BearerToken`, whose second results are whether there is a value.
abbrev pub access_token_of : Context → Option IdToken
access_token_of ctx = ctx.access_token

abbrev pub current_token : Context → Option OauthToken
current_token ctx = ctx.token

abbrev pub bearer_token_of : Context → Option Bytes
bearer_token_of ctx = ctx.bearer_token

-- `user_info` is the provider's UserInfo with a static token source.
module _ {ℓ} {A : Type ℓ} (user_info : OauthToken → Result A) where
  abbrev pub info_with : Option OauthToken → Result A
  info_with none = err (message (lit "no token in context" ∷ []))
  info_with (some tok) = wrapped (lit "get user info" ∷ []) (user_info tok)

  unfoldable pub oidc_user_info : Context → Result A
  oidc_user_info ctx = info_with (current_token ctx)
