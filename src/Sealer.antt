-- ===== src/Sealer.antt =====
-- session_sealer.go: the handles and payloads that a token store seals.
pub mod Rows
use howdah.Base.{ℕ, List, [], ◌∷◌, ◌++◌, Bool, Option, none, some}
use howdah.Base.Bytes.{Bytes}
use howdah.Clock.{Time}
use howdah.Crypto.{Crypto}
use howdah.Encoding.Hex.{hex}
use howdah.Envelope.{
  session_kind_handle, session_kind_payload, seal_kind, open_kind, seal_kind_raw, open_kind_raw,
  Opened,
}
use howdah.Envelope.Domain.{session, store, cookie_domain}
use howdah.Errors.{lit, message, wrapped, Result, ok, err, ◌>>=◌}
use howdah.Keyring.{CookieKeyring, sealing_key}

-- A KeyID is 8 bytes.
abbrev pub KeyId : Type 0
KeyId = Bytes

unfoldable pub key_id_string : KeyId → Bytes
unfolding hex
key_id_string kid = hex kid

pub record SessionSealer : Type 0 where
  pub keyring : CookieKeyring
  pub cookie_domain : Bytes
  pub store_domain : Bytes

unfoldable pub new_session_sealer : Option CookieKeyring → Bytes → Result SessionSealer
unfolding cookie_domain
new_session_sealer none cookie_name = err (message (lit "a cookie keyring is required" ∷ []))
new_session_sealer (some keyring) cookie_name = do
  cookie ← wrapped (lit "session cookie" ∷ []) (cookie_domain session cookie_name)
  stored ← wrapped (lit "session store" ∷ []) (cookie_domain store cookie_name)
  ok (record { keyring = keyring; cookie_domain = cookie; store_domain = stored })

unfoldable pub payload_domain : SessionSealer → Bytes → Bytes
payload_domain s row_id = s.store_domain ++ b':' ∷ hex row_id

module _ (c : Crypto) (s : SessionSealer) (now : Time) where
  unfoldable pub seal_handle : Bytes → Result Bytes → Result Bytes
  unfolding seal_kind
  seal_handle handle random =
      wrapped (lit "seal session handle" ∷ [])
        (seal_kind c (some s.keyring) now session_kind_handle s.cookie_domain handle random)

  unfoldable pub open_handle : Bytes → Result (Bytes × Bool)
  unfolding open_kind
  open_handle value =
      wrapped (lit "open session handle" ∷ [])
        (open_kind c (some s.keyring) now session_kind_handle s.cookie_domain value)

  unfoldable pub seal_payload : Bytes → Bytes → Result Bytes → Result (Bytes × KeyId)
  unfolding seal_kind_raw payload_domain
  seal_payload row_id payload random = wrapped (lit "seal session payload" ∷ []) (
      seal_kind_raw c (some s.keyring) now session_kind_payload (payload_domain s row_id) payload
        random)

  unfoldable pub open_payload : Bytes → Bytes → Result Opened
  unfolding open_kind_raw payload_domain
  open_payload row_id sealed =
      wrapped (lit "open session payload" ∷ [])
        (open_kind_raw c (some s.keyring) now session_kind_payload (payload_domain s row_id) sealed)

  -- The zero id where no key is eligible.
  unfoldable pub sealing_key_id : KeyId
  unfolding sealing_key
  sealing_key_id = elim (sealing_key (some s.keyring) now) [
    | none ↦ 0 ∷ 0 ∷ 0 ∷ 0 ∷ 0 ∷ 0 ∷ 0 ∷ 0 ∷ []
    | some key ↦ key.kid
  ]
