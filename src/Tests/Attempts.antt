-- ===== src/Tests/Attempts.antt =====
-- A login that is begun for a page of a mounted application, and its callback an hour later.
use howdah.Base.{◌+◌, ◌≡◌, [], ◌∷◌, none, some, refl, list_beq, arith}
use howdah.Base.Bytes.{Bytes, bytes, bytes_eq, IsBytes}
use howdah.Base.Dict.{lookup}
use howdah.BasePath.{resolve_redirect}
use howdah.Clock.{hour}
use howdah.Encoding.Base64.{raw_url_encode, encode_raw, char_of}
use howdah.Errors.{Result, ok, err, sentinel, skip_render}
use howdah.Keyring.{sealing_key, eligible}
use howdah.Auth.{Request}
use howdah.Auth.Contexts.{IdToken}
use howdah.Auth.Sent.{sent_cookies}
use howdah.Auth.Login.{query_get, sign_in, auth_callback}
use howdah.Auth.Login.Landing.{redirects}
use howdah.Auth.Login.Browser.{kept_cookies}
use howdah.Auth.Login.Attempt.{begun, landing, auth_callback-auth_redirect}
use howdah.Tests.Cookies.{rendered, mounted}
use howdah.Tests.CookieSessions.{nonce, nonce-IsNonce}
use howdah.Tests.Requests.{aging, exchange_code, user}
use howdah.Tests.Toy.{toy, toy-IsAead, toy_keyring, toy_keyring-IsKeyring, old_entry}

abbrev wanted : Request
wanted = record {
  url = bytes "/auth/login";
  query = (bytes "redirect", bytes "/docs") ∷ [];
  cookies = [];
}

abbrev auth_code_url : Bytes → Bytes → Bytes
auth_code_url state _ = state

abbrev state_read : Bytes
state_read = bytes "abc"

abbrev nonce_read : Bytes
nonce_read = bytes "xyz"

abbrev verify : Bytes → Result IdToken
verify text = ok (record user { nonce = raw_url_encode nonce_read })

old_seals_at_login : sealing_key (some toy_keyring) 150 ≡ some old_entry
unfolding sealing_key eligible
old_seals_at_login = refl

wanted-IsBytes : IsBytes (query_get wanted (bytes "redirect"))
unfolding lookup list_beq
wanted-IsBytes = ground arith

-- The browser comes back with what it kept.
abbrev back : Request
back = record {
  url = bytes "/auth/callback";
  query = (bytes "state", raw_url_encode state_read) ∷ (bytes "code", bytes "c") ∷ [];
  cookies = kept_cookies (
      sent_cookies
        (begun rendered mounted toy 150 auth_code_url wanted state_read nonce_read nonce).0);
}

-- The sign-in succeeds, so this login ends on the page that it was begun for.
ends_there :
    landing rendered mounted
      (bytes "/docs")
      (sign_in rendered mounted aging
        (150 + hour)
        toy
        exchange_code
        verify
        none
        back
        (raw_url_encode state_read)
        (raw_url_encode nonce_read)).1
    ≡ bytes "/app/docs"
unfolding sign_in lookup list_beq raw_url_encode encode_raw resolve_redirect char_of
ends_there = refl

auth_callback-auth_redirect_example :
    (redirects (begun rendered mounted toy 150 auth_code_url wanted state_read nonce_read nonce).0
      ≡ raw_url_encode state_read ∷ [])
    × ((begun rendered mounted toy 150 auth_code_url wanted state_read nonce_read nonce).1
        ≡ err (sentinel skip_render))
    × (redirects
          (auth_callback rendered mounted aging (150 + hour) toy exchange_code verify none back).0
        ≡ landing rendered mounted
            (bytes "/docs")
            (sign_in rendered mounted aging
              (150 + hour)
              toy
              exchange_code
              verify
              none
              back
              (raw_url_encode state_read)
              (raw_url_encode nonce_read)).1
          ∷ [])
unfolding list_beq lookup
auth_callback-auth_redirect_example =
    auth_callback-auth_redirect rendered mounted toy 150 toy-IsAead toy_keyring-IsKeyring
      (150 + hour) (omega arith) nonce nonce-IsNonce old_entry old_seals_at_login aging
      exchange_code verify none back auth_code_url wanted state_read nonce_read wanted-IsBytes refl
      (λ name i. refl)
