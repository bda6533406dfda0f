-- ===== src/Tests/Requests.antt =====
-- Requests of a mounted application, with a provider and stores that answer in one way.
use howdah.Base.{◌*◌, ◌≡◌, ◌≤◌, [], ◌∷◌, none, some, refl, list_beq}
use howdah.Base.Bytes.{Bytes, bytes, bytes_eq}
use howdah.Base.Int.{pos}
use howdah.Clock.{hour}
use howdah.Errors.{Error, Result, ok, err, sentinel, refresh_timeout, wrap, lit}
use howdah.Session.{OauthToken, TokenStore}
use howdah.Auth.{Request}
use howdah.Auth.Contexts.{Context, IdToken}
use howdah.Auth.Guard.{Instants, require_auth, optional_auth, keepalive}
use howdah.Auth.Guard.Writes.{cookie_writes}
use howdah.Auth.Guard.Once.{session_cookie-once}
use howdah.Auth.Guard.Unavailable.{require_auth-unavailable}
use howdah.Auth.Guard.Optional.{quiet, anonymous, optional_auth-eq-require_auth}
use howdah.Auth.Login.{auth_callback}
use howdah.Auth.Login.Creations.{creations}
use howdah.Tests.Cookies.{rendered, mounted, kept_session}
use howdah.Tests.Toy.{toy}

abbrev pub user : IdToken
user = record { subject = bytes "user"; nonce = bytes "n"; raw_claims = [] }

abbrev fresh_token : OauthToken
fresh_token = record {
  access_token = bytes "access";
  token_type = [];
  refresh_token = bytes "refresh";
  expiry = 30 * hour;
  expires_in = pos 0;
  id_token = some (bytes "jwt");
}

abbrev lost : Error
lost = wrap (lit "get the session" ∷ []) (sentinel refresh_timeout)

-- The session in the store has an access token that is about to expire.
abbrev pub aging : TokenStore
aging = record {
  create = λ new. ok kept_session;
  get = λ handle. ok kept_session;
  reseal = λ session. ok session;
  delete = λ handle. ok tt;
  refresh = λ session exchange.
      ok (some (record session { handle = bytes "moved"; token = some fresh_token }));
}

abbrev down : TokenStore
down = record {
  create = λ new. err lost;
  get = λ handle. err lost;
  reseal = λ session. err lost;
  delete = λ handle. err lost;
  refresh = λ session exchange. err lost;
}

abbrev instants : Instants
instants = record { read_at = 2 * hour; until_at = 2 * hour; cleared_at = 2 * hour }

abbrev exchange : OauthToken → Result OauthToken
exchange tok = ok fresh_token

abbrev pub verify : Bytes → Result IdToken
verify text = ok user

abbrev with_headers : Context → Bytes → Result Context
with_headers ctx header = ok ctx

abbrev outside : Context
outside = record { outer = 0; bearer_token = none; token = none; access_token = none }

abbrev page : Request
page = record { url = bytes "/page"; query = []; cookies = (bytes "session", bytes "handle") ∷ [] }

session_cookie-once_example :
    (cookie_writes
        (bytes "session")
        (require_auth rendered mounted aging exchange instants verify with_headers outside page).0
      ≤ 1)
    × (cookie_writes
          (bytes "session")
          (optional_auth rendered mounted aging exchange instants verify with_headers outside
            page).0
        ≤ 1)
    × (cookie_writes (bytes "session") (keepalive rendered mounted aging exchange instants page).0
        ≤ 1)
session_cookie-once_example =
    session_cookie-once rendered mounted aging exchange instants verify with_headers outside page

optional_auth-eq-require_auth_example :
    ((optional_auth rendered mounted down exchange instants verify with_headers outside page).0
      ≡ quiet
          (require_auth rendered mounted down exchange instants verify with_headers outside page).0)
    × ((optional_auth rendered mounted down exchange instants verify with_headers outside page).1
        ≡ anonymous outside
            (require_auth rendered mounted down exchange instants verify with_headers outside
              page).1)
optional_auth-eq-require_auth_example =
    optional_auth-eq-require_auth rendered mounted down exchange instants verify with_headers
      outside page

require_auth-unavailable_example :
    cookie_writes
      (bytes "session")
      (require_auth rendered mounted down exchange instants verify with_headers outside page).0
    ≡ 0
unfolding require_auth list_beq
require_auth-unavailable_example =
    require_auth-unavailable rendered mounted down exchange instants verify with_headers outside
      page lost refl

abbrev pub callback : Request
callback = record {
  url = bytes "/auth/callback";
  query = (bytes "state", bytes "s") ∷ (bytes "code", bytes "c") ∷ [];
  cookies = (bytes "state", bytes "s") ∷ (bytes "nonce", bytes "n") ∷ [];
}

abbrev pub exchange_code : Bytes → Result OauthToken
exchange_code code = ok fresh_token

-- The session of the callback is created.
callback_creates :
    creations
      (auth_callback rendered mounted aging (2 * hour) toy exchange_code verify none callback).0
    ≡ record { subject = bytes "user"; token = some fresh_token; id_token = bytes "jwt" } ∷ []
unfolding auth_callback list_beq
callback_creates = refl
