-- ===== src/Envelope/Domain.antt =====
-- The domains that values are sealed under: `cookieDomain` and `validCookieName`.
pub mod Separation
use howdah.Base.{ℕ, List, [], ◌∷◌, ◌++◌, Bool, true, false, ◌&&◌, ◌||◌, not, leb, if◌then◌else◌}
use howdah.Base.Bytes.{Bytes, bytes, has_byte}
use howdah.Errors.{lit, raw, message, Result, ok, err}

pub data Purpose : Type 0 where
  session auth_redirect store : Purpose

abbrev pub purpose_text : Purpose → Bytes
purpose_text session = bytes "cookie:"
purpose_text auth_redirect = bytes "cookie:auth_redir:"
purpose_text store = bytes "store:"

abbrev pub cookie_name_separators : Bytes
cookie_name_separators = bytes "\"(),/:;<=>?@[\\]{}"

-- The loop of `validCookieName`.
unfoldable pub is_token : Bytes → Bool
unfolding has_byte
is_token [] = true
is_token (c ∷ name) =
    if leb c 0x20 || leb 0x7f c || has_byte cookie_name_separators c then false else is_token name

unfoldable pub valid_cookie_name : Bytes → Bool
unfolding is_token
valid_cookie_name [] = false
valid_cookie_name (c ∷ name) = is_token (c ∷ name)

unfoldable pub cookie_domain : Purpose → Bytes → Result Bytes
unfolding valid_cookie_name
cookie_domain purpose name =
    if valid_cookie_name name
    then ok (purpose_text purpose ++ name)
    else err (
        message
          (raw name ∷ lit " is not a valid cookie name: expected a non-empty HTTP token" ∷ []))
