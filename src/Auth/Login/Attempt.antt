-- ===== src/Auth/Login/Attempt.antt =====
-- A whole attempt to log in: the redirect to the provider, and the callback that it comes back to.
use howdah.Base.{
  ◌≡◌, ◌≤◌, List, [], ◌∷◌, ◌++◌, Option, some, refl, ◌∙◌, ap, inl, inr, All, In, ==_iff, nat_eq,
  list_beq, append_assoc,
}
use howdah.Base.Bytes.{Bytes, bytes, bytes_eq, IsBytes}
use howdah.Base.Dict.{lookup}
use howdah.BasePath.{resolve_redirect}
use howdah.Clock.{Time}
use howdah.Crypto.{Crypto, IsAead}
use howdah.CookieStore.Expiry.{IsNonce}
use howdah.Encoding.Base64.{raw_url_encode}
use howdah.Errors.{Result, ok, err, sentinel, skip_render}
use howdah.Keyring.{KeyEntry, sealing_key}
use howdah.Keyring.Acceptance.{IsKeyring}
use howdah.Session.{OauthToken, TokenStore}
use howdah.Auth.{Cookie, Effect, redirected, OidcAuth, Request, or_empty, Step, handle}
use howdah.Auth.Sent.{sent_cookies}
use howdah.Auth.Contexts.{IdToken}
use howdah.Auth.Guard.{status_found}
use howdah.Auth.Login.{
  query_get, set_callback_cookie, auth_redir_cookie_name, auth_redirect, failed_url, fail_login,
  redir_value, read_auth_redir_cookie, sign_in, clear_callback_cookies, auth_callback,
  redirect_cookie,
}
use howdah.Auth.Login.Browser.{
  kept_cookies, callback_cookies, with_held, lookup-with_held, Holds, set_callback-sent,
  redirect_cookie-Holds,
}
use howdah.Auth.Login.Landing.{
  redirects, redirects-append-Silent, sign_in-Silent, attempt_start-Silent,
}
use howdah.Auth.Guard.Silence.{Silent}

-- Where a login ends that was begun for this target.
abbrev pub landing : (Cookie → Bytes) → OidcAuth → Bytes → Result (Unit {0}) → Bytes
landing rendered a target (ok u) = resolve_redirect a.base_path target
landing rendered a target (err e) = failed_url rendered a

module _ (rendered : Cookie → Bytes) (a : OidcAuth) (c : Crypto) (now : Time) where
  -- The answer to a request to log in, of three reads of the random source.
  abbrev pub begun : (Bytes → Bytes → Bytes) → Request → Bytes → Bytes → Bytes → Step (Unit {0})
  unfolding auth_redirect
  begun auth_code_url r first second random =
      auth_redirect rendered a c now auth_code_url r (ok first) (ok second) (ok random)

  module _ (v : IsAead c) (w : IsKeyring a.keyring) (later : Time) (le : now ≤ later)
      (random : Bytes) (fresh : IsNonce random) (key : KeyEntry)
      (has : sealing_key (some a.keyring) now ≡ some key) where
    module _ (auth_code_url : Bytes → Bytes → Bytes) (r : Request) (first second : Bytes) where
      abbrev went : List Effect
      went =
          redirected status_found (auth_code_url (raw_url_encode first) (raw_url_encode second))
          ∷ []

      begun-sent :
          (effects : List Effect) (held : Option Bytes)
          → redirect_cookie rendered a c now (query_get r (bytes "redirect")) (ok random)
            ≡ ok effects
          → Holds rendered a c now later (query_get r (bytes "redirect")) effects held
          → (kept_cookies (sent_cookies (begun auth_code_url r first second random).0)
              ≡ (bytes "state", raw_url_encode first)
                ∷ (bytes "nonce", raw_url_encode second)
                ∷ with_held held [])
            × (redirects (begun auth_code_url r first second random).0
                ≡ auth_code_url (raw_url_encode first) (raw_url_encode second) ∷ [])
            × ((begun auth_code_url r first second random).1 ≡ err (sentinel skip_render))
      unfolding auth_redirect
      begun-sent effects held set (keeps, _) =
          let states = set_callback_cookie rendered a (bytes "state") (raw_url_encode first) in
          let nonces = set_callback_cookie rendered a (bytes "nonce") (raw_url_encode second) in
          let (k1, g1) =
            set_callback-sent rendered a c now (bytes "state") (raw_url_encode first)
              (nonces ++ (effects ++ went)) in
          let (k2, g2) =
            set_callback-sent rendered a c now (bytes "nonce") (raw_url_encode second)
              (effects ++ went) in
          let (k3, g3) = keeps went in
          rw set (
            rw (append_assoc states nonces (effects ++ went)) (
              k1
                  ∙ ap (λ ks. (bytes "state", raw_url_encode first) ∷ ks)
                      (k2 ∙ ap (λ ks. (bytes "nonce", raw_url_encode second) ∷ ks) k3),
              g1 ∙ g2 ∙ g3,
              refl,
            ))

    module _ (store : TokenStore) (exchange_code : Bytes → Result OauthToken)
        (verify : Bytes → Result IdToken) (on_login : Option (IdToken → Result (Unit {0})))
        (back : Request) where
      handle-lands :
          (s : Step (Unit {0})) (target : Bytes)
          → All Silent s.0
          → redirects
              (handle s (fail_login rendered a) (λ u. (
                redirected status_found (resolve_redirect a.base_path target) ∷ [],
                err (sentinel skip_render),
              ))).0
            ≡ landing rendered a target s.1 ∷ []
      unfolding fail_login
      handle-lands (effects, ok u) target quiet = redirects-append-Silent effects _ quiet
      handle-lands (effects, err e) target quiet = redirects-append-Silent effects _ quiet

      callback-lands :
          (target state nonce : Bytes)
          → query_get back (bytes "error") ≡ []
          → lookup (bytes "state") back.cookies ≡ some state
          → lookup (bytes "nonce") back.cookies ≡ some nonce
          → or_empty (redir_value rendered a c later (lookup auth_redir_cookie_name back.cookies)).1
            ≡ target
          → redirects (auth_callback rendered a store later c exchange_code verify on_login back).0
            ≡ landing rendered a target
                (sign_in rendered a store later c exchange_code verify on_login back state nonce).1
              ∷ []
      unfolding auth_callback read_auth_redir_cookie
      callback-lands target state nonce accepted states nonces held =
          let start = read_auth_redir_cookie rendered a c later back in
          let signed =
            sign_in rendered a store later c exchange_code verify on_login back state nonce in
          rw ((==_iff (query_get back (bytes "error")) []).1 accepted, states, nonces)
            (redirects-append-Silent
                (start.0
                  ++ clear_callback_cookies rendered a store later c exchange_code verify on_login)
                _ (attempt_start-Silent rendered a store later c exchange_code verify on_login back)
              ∙ handle-lands signed (or_empty start.1) (
                  sign_in-Silent rendered a store later c exchange_code verify on_login back state
                    nonce)
              ∙ ap (λ t. landing rendered a t signed.1 ∷ []) held)

      -- A login that is begun for a target and comes back. The answer redirects once, to the address of
      -- the provider. The callback that comes back, at that time or later and without an error from the
      -- provider, carries the cookies that the browser kept of that answer: it tries the sign-in with
      -- the state and nonce of that address, and sends the browser once, to the target that was asked
      -- for, resolved on the mount point, where the sign-in succeeds, and to the login page that tells
      -- of the failure where it does not. (The keyring has a key to seal with, the three reads of
      -- the random source succeed, and AES-GCM opens what it sealed.)
      pub auth_callback-auth_redirect :
          (auth_code_url : Bytes → Bytes → Bytes) (r : Request) (first second : Bytes)
          → IsBytes (query_get r (bytes "redirect"))
          → query_get back (bytes "error") ≡ []
          → ((name : Bytes)
              → In name callback_cookies
              → lookup name back.cookies
                ≡ lookup name
                    (kept_cookies (sent_cookies (begun auth_code_url r first second random).0)))
          → (redirects (begun auth_code_url r first second random).0
              ≡ auth_code_url (raw_url_encode first) (raw_url_encode second) ∷ [])
            × ((begun auth_code_url r first second random).1 ≡ err (sentinel skip_render))
            × (redirects
                  (auth_callback rendered a store later c exchange_code verify on_login back).0
                ≡ landing rendered a
                    (query_get r (bytes "redirect"))
                    (sign_in rendered a store later c exchange_code verify on_login back
                      (raw_url_encode first)
                      (raw_url_encode second)).1
                  ∷ [])
      unfolding lookup list_beq
      auth_callback-auth_redirect auth_code_url r first second plain_bytes accepted carries =
          let (effects, held, set, holds) =
            redirect_cookie-Holds rendered a c now v w later le random fresh key has
              (query_get r (bytes "redirect")) plain_bytes in
          let (kept, goes, skips) =
            begun-sent auth_code_url r first second effects held set holds in
          let cookies =
            (bytes "state", raw_url_encode first)
            ∷ (bytes "nonce", raw_url_encode second)
            ∷ with_held held [] in
          let found : (name : Bytes)
              → In name callback_cookies
              → lookup name back.cookies ≡ lookup name cookies =
            λ name i. carries name i ∙ ap (lookup name) kept in
          let redir : lookup auth_redir_cookie_name cookies ≡ held = lookup-with_held held in
          (
            goes,
            skips,
            callback-lands (query_get r (bytes "redirect")) (raw_url_encode first)
                (raw_url_encode second) accepted (found (bytes "state") (inl refl))
                (found (bytes "nonce") (inr (inl refl)))
                (ap (λ o. or_empty (redir_value rendered a c later o).1)
                    (found auth_redir_cookie_name (inr (inr (inl refl))) ∙ redir)
                  ∙ holds.1),
          )
