-- ===== src/Tests/Cookies.antt =====
-- The session cookie of a mounted application, over stores that answer in one way.
use howdah.Base.{
  not, length, length-append, ◌++◌, ◌≤◌, ◌+◌, arith, ◌*◌, ◌≡◌, ◌≢◌, ◌↔◌, List, [], ◌∷◌, true, false,
  none, some, refl, list_beq,
}
use howdah.Base.Bytes.{Bytes, bytes, bytes_eq}
use howdah.Base.Dict.{lookup}
use howdah.Base.Int.{pos}
use howdah.Clock.{hour}
use howdah.BasePath.{path}
use howdah.Errors.{Result, ok, err, sentinel, no_session}
use howdah.Session.{StoredToken}
use howdah.Auth.{
  sent, set_cookie, set_token_cookie, plain, cookie_attribute_budget, Cookie, OidcAuth,
  session_gone, read_token_cookie,
}
use howdah.Tests.Toy.{toy_keyring}
use howdah.Auth.Cookies.{clears, read_token_cookie-clears, set_token_cookie-fits}

-- The tests do not depend on the text of a cookie.
abbrev pub rendered : Cookie → Bytes
rendered c = c.value

abbrev pub mounted : OidcAuth
mounted = record {
  keyring = toy_keyring;
  cookie_name = bytes "session";
  base_path = bytes "/app";
  insecure = false;
  no_logout_menu_item = false;
  session_domain = bytes "cookie:session";
  redir_domain = bytes "cookie:auth_redir:session";
}

abbrev pub kept_session : StoredToken
kept_session = record {
  handle = bytes "handle";
  subject = bytes "user";
  token = some (record {
    access_token = bytes "access";
    token_type = [];
    refresh_token = [];
    expiry = 0;
    expires_in = pos 0;
    id_token = none;
  });
  id_token = [];
  issued_at = 0;
  expires_at = 24 * hour;
  stale = false;
}

abbrev empty_store : Bytes → Result StoredToken
empty_store handle = err (sentinel no_session)

abbrev full_store : Bytes → Result StoredToken
full_store handle = ok kept_session

abbrev request_cookies : List (Bytes × Bytes)
request_cookies = (bytes "session", bytes "handle") ∷ []

read_token_cookie-clears_example :
    (clears
        (bytes "session")
        (read_token_cookie rendered empty_store mounted (48 * hour) request_cookies).0
      ≡ true)
    ↔ ((lookup (bytes "session") request_cookies ≢ none)
        × (session_gone (sentinel no_session) ≡ true))
unfolding read_token_cookie list_beq
read_token_cookie-clears_example =
    read_token_cookie-clears rendered mounted (48 * hour) empty_store request_cookies
      (sentinel no_session) refl

-- A cookie's text without its attributes.
abbrev pair : Cookie → Bytes
pair c = c.name ++ b'=' ∷ c.value

pair-fits :
    (c : Cookie)
    → c.path ≡ path mounted.base_path (bytes "/")
    → length (pair c) ≤ length c.value + length c.name + cookie_attribute_budget
pair-fits c h = rw (length-append c.name (b'=' ∷ c.value)) (omega arith)

set_token_cookie-fits_example :
    (c : Cookie) × (set_cookie pair
        (plain (bytes "session") (bytes "handle") (bytes "/app/") (some (24 * hour)) (pos 0))
        false
      ≡ sent c ∷ [])
    × (c.value ≡ kept_session.handle)
    × (c.expires ≡ some kept_session.expires_at)
    × (c.http_only ≡ true)
    × (c.secure ≡ not mounted.insecure)
unfolding set_token_cookie
set_token_cookie-fits_example =
    set_token_cookie-fits pair mounted kept_session
      (set_cookie pair
        (plain (bytes "session") (bytes "handle") (bytes "/app/") (some (24 * hour)) (pos 0)) false)
      pair-fits refl
