-- ===== src/Tests/Logins.antt =====
-- Logins over a provider that knows one user, and the session that they begin.
use howdah.Base.{
  ◌*◌, ◌+◌, ◌≡◌, ◌≤◌, ◌<◌, ◌≢◌, [], ◌∷◌, true, false, none, some, Bool, refl, list_beq, In, arith,
}
use howdah.Base.Bytes.{Bytes, bytes, bytes_eq, has_byte}
use howdah.Base.Int.{pos}
use howdah.BasePath.{new_base_path, trim_left, trim_right}
use howdah.Clock.{Time, hour}
use howdah.CookieStore
use howdah.Encoding.Base64.{raw_url_encode, encode_raw}
use howdah.Envelope.{seal}
use howdah.Keyring.{sealing_key}
use howdah.Errors.{Error, Result, ok, err}
use howdah.Errors.Http.{as_http_error}
use howdah.Session.{OauthToken, without_extra}
use howdah.Auth.{Cookie, sent, read_token_cookie}
use howdah.Auth.Cookies.{clears}
use howdah.Auth.CookieBacked.{cookie_backed}
use howdah.Auth.CookieBacked.Lasting.{sign_in-lasts}
use howdah.Auth.Contexts.{IdToken}
use howdah.Auth.Login.{query_get, auth_callback, sign_in, assume_token_expiry}
use howdah.Auth.Login.Creations.{creations}
use howdah.Auth.Login.Creation.{Creates, auth_callback-Creates}
use howdah.Auth.Login.Landing.{redirects, LandsLocally, auth_callback-LandsLocally}
use howdah.Tests.Cookies.{rendered, mounted}
use howdah.Tests.CookieSessions.{toy_codec, toy_codec-IsCodec, toy_store, nonce, nonce-IsNonce}
use howdah.Tests.Requests.{aging, exchange_code, verify, callback}
use howdah.Tests.Toy.{toy, toy-IsAead, toy_keyring-IsKeyring}

auth_callback-Creates_example :
    Creates rendered mounted aging (2 * hour) toy exchange_code verify none callback (
      creations
        (auth_callback rendered mounted aging (2 * hour) toy exchange_code verify none callback).0)
auth_callback-Creates_example =
    auth_callback-Creates rendered mounted aging (2 * hour) toy exchange_code verify none callback

mounted_here : mounted.base_path ≡ new_base_path (bytes "/app")
unfolding new_base_path trim_left trim_right list_beq
mounted_here = refl

clean : has_byte (new_base_path (bytes "/app")) b'\\' ≡ false
unfolding new_base_path trim_left trim_right list_beq has_byte
clean = refl

auth_callback-LandsLocally_example :
    (query_get callback (bytes "error") ≡ []
      → LandsLocally rendered mounted aging
          (2 * hour)
          toy
          exchange_code
          verify
          none
          (λ url. true)
          (auth_callback rendered mounted aging (2 * hour) toy exchange_code verify none callback))
    × (query_get callback (bytes "error") ≢ []
        → (redirects
              (auth_callback rendered mounted aging
                (2 * hour)
                toy
                exchange_code
                verify
                none
                callback).0
            ≡ [])
          × ((e : Error) × ((auth_callback rendered mounted aging
                  (2 * hour)
                  toy
                  exchange_code
                  verify
                  none
                  callback).1
                ≡ err e)
              × ((as_http_error e).code ≡ 403)))
auth_callback-LandsLocally_example =
    auth_callback-LandsLocally rendered mounted aging (2 * hour) toy exchange_code verify none
      (bytes "/app") mounted_here clean (λ url. true) callback

abbrev short_token : Bytes → Result OauthToken
short_token code = ok (record {
  access_token = 1 ∷ [];
  token_type = [];
  refresh_token = [];
  expiry = 200;
  expires_in = pos 0;
  id_token = some (bytes "jwt");
})

signs_in :
    (sign_in rendered mounted
      (cookie_backed toy toy_codec toy_store 150 (ok nonce))
      150
      toy
      short_token
      verify
      none
      callback
      (bytes "s")
      (bytes "n")).1
    ≡ ok tt
unfolding sign_in cookie_backed list_beq CookieStore.create seal sealing_key raw_url_encode
    encode_raw toy
signs_in = refl

sign_in-lasts_example :
    (k : Cookie) × (raw_token : Bytes) × (id : IdToken) × (tok : OauthToken) × In
      (sent k)
      (sign_in rendered mounted
        (cookie_backed toy toy_codec toy_store 150 (ok nonce))
        150
        toy
        short_token
        verify
        none
        callback
        (bytes "s")
        (bytes "n")).0
    × (k.name ≡ mounted.cookie_name)
    × (short_token (query_get callback (bytes "code")) ≡ ok tok)
    × (tok.id_token ≡ some raw_token)
    × (verify raw_token ≡ ok id)
    × ((later : Time) (random : Result Bytes)
        → 150 ≤ later
        → later < 150 + 1000
        → (stale : Bool) × (read_token_cookie rendered
              (cookie_backed toy toy_codec toy_store later random).get
              mounted
              later
              ((k.name, k.value) ∷ [])
            ≡ (
              [],
              ok (record {
                handle = k.value;
                subject = id.subject;
                token = some (without_extra (assume_token_expiry 150 tok).1);
                id_token = [];
                issued_at = 150;
                expires_at = 150 + 1000;
                stale = stale;
              }),
            )))
    × ((later : Time) (random : Result Bytes)
        → 150 + 1000 ≤ later
        → clears mounted.cookie_name
            (read_token_cookie rendered
              (cookie_backed toy toy_codec toy_store later random).get
              mounted
              later
              ((k.name, k.value) ∷ [])).0
          ≡ true)
sign_in-lasts_example =
    sign_in-lasts rendered mounted toy toy_codec toy_store 1000 150 nonce short_token verify none
      callback (bytes "s") (bytes "n") tt toy-IsAead toy_codec-IsCodec toy_keyring-IsKeyring refl
      (omega arith) (omega arith) nonce-IsNonce signs_in
