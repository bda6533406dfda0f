-- ===== src/Auth/Exchange.antt =====
-- exchangeToken of application_auth.go and what it calls: the refresh of an access token at the token
-- endpoint. `request_error` is the failure of http.NewRequest on a URL, `send_request` the default
-- client's Do; the endpoint and the client's credentials are those of the provider and the oauth2
-- configuration.
pub mod Renewal
use howdah.Base.{
  ℕ, ◌+◌, ◌*◌, ◌≡◌, ◌≢◌, List, [], ◌∷◌, Bool, true, false, not, Option, none, some, refl, arith,
  ◌==◌, ==_iff, nat_eq, if◌then◌else◌, Bool-cases, inl, inr, ◌||◌, ltb,
}
use howdah.Base.Bytes.{Bytes, bytes, bytes_eq}
use howdah.Clock.{Time, second, before, is_zero_time}
use howdah.Errors.{
  Error, Result, ok, err, wrap, wrap_both, wrapped, lit, message, sentinel, refresh_rejected, is,
  ◌>>=◌, >>=-eq-ok, wrapped-eq-ok, Result-cases,
}
use howdah.Session.{OauthToken}
use howdah.Token.{Formats, Response, do_token_round_trip, limited, answer_of, failure_status}
use howdah.Auth.{Effect}
use howdah.Auth.Login.{assume_token_expiry}

pub record Client : Type 0 where
  pub id : Bytes
  pub secret : Bytes
  pub token_url : Bytes

-- The form that is posted, to an endpoint and with a deadline.
pub record TokenRequest : Type 0 where
  pub url : Bytes
  pub deadline : Time
  pub content_type : Bytes
  pub values : List (Bytes × Bytes)

abbrev pub token_refresh_timeout : ℕ
token_refresh_timeout = 10 * second

abbrev pub sooner : Time → Option Time → Time
sooner deadline none = deadline
sooner deadline (some parent) = if before parent deadline then parent else deadline

-- The deadline of the context, whose own deadline is `parent` where it has one.
unfoldable pub detached_deadline : Time → Option Time → ℕ → Time
detached_deadline now parent timeout = sooner (now + timeout) parent

abbrev pub kept_refresh_token : Bytes → OauthToken → OauthToken
kept_refresh_token old tok =
    if tok.refresh_token == [] then record tok { refresh_token = old } else tok

module _ (f : Formats) (k : Client) (request_error : Bytes → Option Error)
    (send_request : TokenRequest → Result Response) where
  abbrev pub or_request_error : TokenRequest → Option Error → Result TokenRequest
  or_request_error r none = ok r
  or_request_error r (some e) = err (wrap (lit "create token refresh request" ∷ []) e)

  abbrev pub refresh_request : Bytes → Time → TokenRequest
  refresh_request refresh_token deadline = record {
    url = k.token_url;
    deadline = deadline;
    content_type = bytes "application/x-www-form-urlencoded";
    values =
        (bytes "grant_type", bytes "refresh_token")
        ∷ (bytes "refresh_token", refresh_token)
        ∷ (bytes "client_id", k.id)
        ∷ (bytes "client_secret", k.secret)
        ∷ [];
  }

  -- `now` is the time of the call, `at` that of the answer.
  unfoldable pub exchange_refresh_token : Time → Time → Option Time → Bytes → Result OauthToken
  unfolding detached_deadline do_token_round_trip assume_token_expiry
  exchange_refresh_token now at parent refresh_token = do
    r ←
        or_request_error
          (refresh_request refresh_token (detached_deadline now parent token_refresh_timeout))
          (request_error k.token_url)
    tok ← wrapped (lit "token endpoint round trip" ∷ []) (do_token_round_trip f at (send_request r))
    ok (assume_token_expiry at (kept_refresh_token refresh_token tok)).1

  abbrev pub as_rejected : Result OauthToken → Result OauthToken
  as_rejected (ok tok) = ok tok
  as_rejected (err e) = err (wrap_both (sentinel refresh_rejected) [] e)

  unfoldable pub exchange_token : Time → Time → Option Time → OauthToken → Result OauthToken
  unfolding exchange_refresh_token
  exchange_token now at parent tok =
      as_rejected (exchange_refresh_token now at parent tok.refresh_token)
