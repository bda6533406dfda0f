-- ===== src/Auth/Login/Browser.antt =====
-- What a browser holds of the answer to a request to log in.
use howdah.Base.{
  ◌≡◌, ◌≤◌, List, [], ◌∷◌, ◌++◌, Bool, true, false, Option, none, some, refl, ap, sym, Bool-cases,
  inl, inr, ◌==◌, ==_iff, nat_eq, list_beq, if◌then◌else◌, ◌-◌, ◌*◌,
}
use howdah.Base.Bytes.{Bytes, bytes, bytes_eq, IsBytes}
use howdah.Base.Dict.{lookup}
use howdah.Base.Int.{ℤ, pos, negsuc}
use howdah.BasePath.{path}
use howdah.Clock.{Time, hour}
use howdah.Crypto.{Crypto, IsAead}
use howdah.CookieStore.Expiry.{IsNonce}
use howdah.Encoding.Base64.{raw_url_encode}
use howdah.Envelope.{seal, seal_kind, seal_kind_raw, seal_with, open_value, session_kind_payload}
use howdah.Envelope.Cookie.{open_kind-seal_kind}
use howdah.Errors.{ok}
use howdah.Keyring.{KeyEntry, sealing_key}
use howdah.Keyring.Acceptance.{IsKeyring}
use howdah.Auth.{Cookie, Effect, OidcAuth, or_empty, plain}
use howdah.Auth.Sent.{sent_cookies, set_cookie-sent}
use howdah.Auth.Login.{
  set_callback_cookie, clear_callback_cookie, set_auth_redir_cookie, auth_redir_cookie_name,
  redir_value, redirect_cookie,
}
use howdah.Auth.Login.Landing.{redirects}

-- A cookie with a negative Max-Age is deleted.
abbrev pub is_kept : ℤ → Bool
is_kept (pos seconds) = true
is_kept (negsuc seconds) = false

-- What a browser keeps of the cookies that it is sent.
abbrev pub kept_cookies : List Cookie → List (Bytes × Bytes)
kept_cookies [] = []
kept_cookies (k ∷ ks) =
    if is_kept k.max_age then (k.name, k.value) ∷ kept_cookies ks else kept_cookies ks

abbrev pub callback_cookies : List Bytes
callback_cookies = bytes "state" ∷ bytes "nonce" ∷ auth_redir_cookie_name ∷ []

abbrev pub with_held : Option Bytes → List (Bytes × Bytes) → List (Bytes × Bytes)
with_held none cookies = cookies
with_held (some value) cookies = (auth_redir_cookie_name, value) ∷ cookies

pub lookup-with_held :
    (held : Option Bytes)
    → lookup auth_redir_cookie_name ((bytes "state", []) ∷ (bytes "nonce", []) ∷ with_held held [])
      ≡ held
unfolding lookup list_beq
lookup-with_held none = refl
lookup-with_held (some value) = refl

module _ (rendered : Cookie → Bytes) (a : OidcAuth) (c : Crypto) (now : Time) where
  pub set_callback-sent :
      (name value : Bytes) (effects : List Effect)
      → (kept_cookies (sent_cookies (set_callback_cookie rendered a name value ++ effects))
          ≡ (name, value) ∷ kept_cookies (sent_cookies effects))
        × (redirects (set_callback_cookie rendered a name value ++ effects) ≡ redirects effects)
  unfolding set_callback_cookie
  set_callback-sent name value effects =
      let (cookies, goes) =
        set_cookie-sent rendered
          (plain name value (path a.base_path (bytes "/auth")) none (pos 3600)) a.insecure
          effects in
      (ap kept_cookies cookies, goes)

  pub clear_callback-sent :
      (name : Bytes) (effects : List Effect)
      → (kept_cookies (sent_cookies (clear_callback_cookie rendered a now name ++ effects))
          ≡ kept_cookies (sent_cookies effects))
        × (redirects (clear_callback_cookie rendered a now name ++ effects) ≡ redirects effects)
  unfolding clear_callback_cookie
  clear_callback-sent name effects =
      let (cookies, goes) =
        set_cookie-sent rendered
          (plain name [] (path a.base_path (bytes "/auth")) (some (now - 24 * hour)) (negsuc 0))
          a.insecure effects in
      (ap kept_cookies cookies, goes)

  -- What is done for the target: a browser holds `held` then, and the callback reads the target in it.
  abbrev pub Holds : Time → Bytes → List Effect → Option Bytes → Type 0
  Holds later target effects held =
      ((rest : List Effect)
        → (kept_cookies (sent_cookies (effects ++ rest))
            ≡ with_held held (kept_cookies (sent_cookies rest)))
          × (redirects (effects ++ rest) ≡ redirects rest))
      × (or_empty (redir_value rendered a c later held).1 ≡ target)

  module _ (v : IsAead c) (w : IsKeyring a.keyring) (later : Time) (le : now ≤ later)
      (random : Bytes) (fresh : IsNonce random) (key : KeyEntry)
      (has : sealing_key (some a.keyring) now ≡ some key) where
    raw_sealed :
        (target : Bytes)
        → seal_kind c (some a.keyring) now session_kind_payload a.redir_domain target (ok random)
          ≡ ok (raw_url_encode (seal_with c key session_kind_payload a.redir_domain target random))
    unfolding seal_kind seal_kind_raw
    raw_sealed target = rw (has, seal_kind_raw) refl

    seal-ok :
        (target : Bytes)
        → IsBytes target
        → (value : Bytes) × (current : Bool) × (seal c
              (some a.keyring)
              now
              a.redir_domain
              target
              (ok random)
            ≡ ok value)
          × (open_value c (some a.keyring) later a.redir_domain value ≡ ok (target, current))
    unfolding seal seal_kind seal_kind_raw open_value
    seal-ok target plain_bytes =
        let value =
          raw_url_encode (seal_with c key session_kind_payload a.redir_domain target random) in
        let sealed : seal_kind c (some a.keyring) now session_kind_payload a.redir_domain target
              (ok random)
            ≡ ok value =
          raw_sealed target in
        let ((current, opened), _) =
          open_kind-seal_kind c a.keyring now later session_kind_payload a.redir_domain target
            random value v w (inl refl) fresh.full fresh.nonce_bytes plain_bytes le sealed in
        (value, current, sealed, opened)

    pub redirect_cookie-Holds :
        (target : Bytes)
        → IsBytes target
        → (effects : List Effect) × (held : Option Bytes) × (redirect_cookie rendered a c now target
              (ok random)
            ≡ ok effects)
          × Holds later target effects held
    unfolding set_auth_redir_cookie
    redirect_cookie-Holds target plain_bytes = elim (Bool-cases (target == [])) [
      | inl none_there ↦ (
        clear_callback_cookie rendered a now auth_redir_cookie_name,
        none,
        rw none_there refl,
        (clear_callback-sent auth_redir_cookie_name, sym ((==_iff target []).0 none_there)),
      )
      | inr given ↦
          let (value, current, sealed, opened) = seal-ok target plain_bytes in
          (
            set_callback_cookie rendered a auth_redir_cookie_name value,
            some value,
            rw given (rw sealed refl),
            (set_callback-sent auth_redir_cookie_name value, rw opened refl),
          )
    ]
