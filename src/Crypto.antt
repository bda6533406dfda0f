-- ===== src/Crypto.antt =====
-- What the program takes from crypto/aes, crypto/cipher and crypto/sha256, as a parameter, and the
-- documented behaviour of AES-256-GCM and SHA-256 that it relies on.
use howdah.Base.{◌+◌, ◌≡◌, Option, some, length}
use howdah.Base.Bytes.{Bytes, IsBytes}
use howdah.Errors.{Error}

-- An AEAD is known by the secret it was built from: the arguments of `seal` and `open` are the
-- secret, the nonce, the text and the additional data, and a sealed text ends in its tag.
pub record Crypto : Type 0 where
  pub sha256 : Bytes → Bytes
  pub cipher_error : Bytes → Option Error
  pub gcm_error : Bytes → Option Error
  pub aead_seal : Bytes → Bytes → Bytes → Bytes → Bytes
  pub aead_open : Bytes → Bytes → Bytes → Bytes → Option Bytes

pub record IsAead (c : Crypto) : Type 0 where
  -- Opening undoes sealing.
  pub aead_open-aead_seal :
      (key nonce text aad : Bytes)
      → c.aead_open key nonce (c.aead_seal key nonce text aad) aad ≡ some text
  -- Only what was sealed with the same nonce and additional data opens.
  pub aead_seal_of_open :
      (key nonce sealed aad text : Bytes)
      → c.aead_open key nonce sealed aad ≡ some text
      → sealed ≡ c.aead_seal key nonce text aad
  -- The tag takes 16 bytes.
  pub length-aead_seal :
      (key nonce text aad : Bytes) → length (c.aead_seal key nonce text aad) ≡ length text + 16
  pub aead_seal-IsBytes :
      (key nonce text aad : Bytes) → IsBytes text → IsBytes (c.aead_seal key nonce text aad)

pub record IsHash (c : Crypto) : Type 0 where
  pub length-sha256 : (text : Bytes) → length (c.sha256 text) ≡ 32
  pub sha256-IsBytes : (text : Bytes) → IsBytes (c.sha256 text)
