-- ===== src/Tests/Setup.antt =====
-- Two applications on one host, and a token endpoint that keeps the refresh token.
use howdah.Base.{
  ℕ, ◌*◌, ◌+◌, ◌-◌, ◌^◌, ◌≡◌, ◌≢◌, ◌≤◌, ◌<◌, min, [], ◌∷◌, ◌++◌, inr, true, false, Option, none,
  some, refl, list_beq, Bool, arith,
}
use howdah.Base.Bytes.{Bytes, bytes, bytes_eq, has_byte}
use howdah.Base.Int.{pos, negsuc}
use howdah.Clock.{second, is_zero_time}
use howdah.Envelope.Domain.{cookie_domain, valid_cookie_name, is_token}
use howdah.Errors.{Error, Result, ok, err, message, lit, is, refresh_rejected}
use howdah.Session.{OauthToken}
use howdah.Token.{Formats, Response, ErrorDetail, expiration_time, expiry_in, do_token_round_trip}
use howdah.Token.Numbers.{parse_int, parsed, scan_digits}
use howdah.Token.Lifetime.{expiration_time-seconds}
use howdah.Auth.Exchange.{Client, TokenRequest, exchange_token}
use howdah.Auth.Exchange.Renewal.{expiry_or_assumed, exchange_token-renews}
use howdah.Auth.Options.{
  with_session_cookie_name, with_insecure_cookies, Built, default_max_session_age, new_oidc_auth,
}
use howdah.Auth.Options.Building.{IsBuilt, new_oidc_auth-separate}
use howdah.Tests.Toy.{toy_keyring}

abbrev nothing : ErrorDetail
nothing = record { error_code = []; error_description = []; error_uri = [] }

abbrev formats : Formats
formats = record {
  media_type = λ content. content;
  parse_query = λ body. ok [];
  decode = λ body. ok (record {
    access_token = body;
    token_type = bytes "Bearer";
    refresh_token = [];
    expires_in = none;
    detail = nothing;
  });
  number = λ text. ok text;
  retrieve_error = λ detail. message (lit "oauth2: cannot fetch token" ∷ []);
}

abbrev client : Client
client = record {
  id = bytes "app";
  secret = bytes "hush";
  token_url = bytes "https://login.example/token";
}

abbrev no_error : Bytes → Option Error
no_error url = none

abbrev endpoint : TokenRequest → Result Response
endpoint r =
    ok (record { status = 200; content_type = bytes "application/json"; body = ok (bytes "new") })

abbrev old_token : OauthToken
old_token = record {
  access_token = bytes "old";
  token_type = bytes "Bearer";
  refresh_token = bytes "again";
  expiry = 5;
  expires_in = pos 0;
  id_token = none;
}

exchange_token-renews_example :
    ((new : OauthToken)
      → exchange_token formats client no_error endpoint 10 20 none old_token ≡ ok new
      → (request : TokenRequest) × (tok : OauthToken) × (do_token_round_trip formats 20
            (endpoint request)
          ≡ ok tok)
        × (new.access_token ≡ tok.access_token)
        × (new.access_token ≢ [])
        × (new.expiry ≡ expiry_or_assumed 20 tok.expiry)
        × (is_zero_time new.expiry ≡ false)
        × (bytes "again" ≢ [] → new.refresh_token ≢ []))
    × ((e : Error)
        → exchange_token formats client no_error endpoint 10 20 none old_token ≡ err e
        → is e refresh_rejected ≡ true)
exchange_token-renews_example =
    exchange_token-renews formats client no_error endpoint 10 20 none old_token

-- The old refresh token is kept, and the lifetime assumed.
renewed :
    exchange_token formats client no_error endpoint 10 20 none old_token
    ≡ ok (record {
      access_token = bytes "new";
      token_type = bytes "Bearer";
      refresh_token = bytes "again";
      expiry = 300_000_000_020;
      expires_in = pos 0;
      id_token = none;
    })
unfolding exchange_token list_beq
renewed = refl

text_parses : parse_int (bytes "3600") ≡ parsed (pos 3600)
unfolding parse_int scan_digits
text_parses = refl

expiration_time-seconds_example :
    ((n : ℕ)
      → pos 3600 ≡ pos n
      → 0 < n
      → (expiration_time formats (bytes "3600") ≡ ok (pos (min n (2 ^ 31 - 1))))
        × (expiry_in 7 (pos (min n (2 ^ 31 - 1))) ≡ 7 + min n (2 ^ 31 - 1) * second))
    × ((m : ℕ)
        → pos 3600 ≡ negsuc m
        → m < 2 ^ 31
        → expiration_time formats (bytes "3600") ≡ ok (negsuc m))
    × ((m : ℕ)
        → pos 3600 ≡ negsuc m
        → 2 ^ 31 ≤ m
        → m + 1 < 2 ^ 32
        → (expiration_time formats (bytes "3600") ≡ ok (pos (2 ^ 32 - 1 - m)))
          × (7 ≤ expiry_in 7 (pos (2 ^ 32 - 1 - m))))
expiration_time-seconds_example =
    expiration_time-seconds formats (bytes "3600") (bytes "3600") (pos 3600)
      (λ e. ground (arith, e)) (λ e. ground (arith, e)) refl text_parses 7

abbrev built_as : Bytes → Bool → Built ℕ
built_as name insecure = record {
  auth = record {
    keyring = toy_keyring;
    base_path = [];
    cookie_name = name;
    insecure = insecure;
    no_logout_menu_item = false;
    session_domain = bytes "cookie:" ++ name;
    redir_domain = bytes "cookie:auth_redir:" ++ name;
  };
  on_login = none;
  store = inr (record {
    keyring = toy_keyring;
    domain = bytes "cookie:" ++ name;
    max_session_age = default_max_session_age;
  });
}

plain_app : new_oidc_auth ℕ (some toy_keyring) [] ≡ ok (built_as (bytes "token") false)
unfolding new_oidc_auth cookie_domain valid_cookie_name is_token has_byte
plain_app = refl

named_app :
    new_oidc_auth ℕ
      (some toy_keyring)
      (with_session_cookie_name (bytes "sid") ∷ with_insecure_cookies ∷ [])
    ≡ ok (built_as (bytes "sid") true)
unfolding new_oidc_auth cookie_domain valid_cookie_name is_token has_byte
named_app = refl

new_oidc_auth-separate_example :
    IsBuilt ℕ toy_keyring (built_as (bytes "token") false)
    × (bytes "cookie:token" ≢ bytes "cookie:auth_redir:token")
    × (bytes "token" ≢ bytes "sid"
        → (bytes "cookie:token" ≢ bytes "cookie:sid")
          × (bytes "cookie:token" ≢ bytes "cookie:auth_redir:sid")
          × (bytes "cookie:auth_redir:token" ≢ bytes "cookie:sid")
          × (bytes "cookie:auth_redir:token" ≢ bytes "cookie:auth_redir:sid"))
new_oidc_auth-separate_example =
    new_oidc_auth-separate ℕ toy_keyring toy_keyring []
      (with_session_cookie_name (bytes "sid") ∷ with_insecure_cookies ∷ [])
      (built_as (bytes "token") false) (built_as (bytes "sid") true) plain_app named_app
