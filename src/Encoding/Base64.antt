-- ===== src/Encoding/Base64.antt =====
-- encoding/base64: the standard alphabet with padding, as keys are written in, and the URL alphabet
-- without, as cookie values are. Decoding skips line breaks and ignores the bits that a final
-- partial group leaves over, as Go's non-strict decoders do.
pub mod RoundTrip
use howdah.Base.{
  ℕ, List, [], ◌∷◌, ◌++◌, ◌+◌, ◌-◌, ◌*◌, ◌/◌, ◌%◌, Bool, ◌&&◌, ◌||◌, Option, none, some, ltb, leb,
  ◌==◌, nat_eq, if◌then◌else◌,
}
use howdah.Base.Bytes.{Bytes}

pub data Alphabet : Type 0 where
  standard url : Alphabet

abbrev pub pad : ℕ
pad = b'='

abbrev pub digit_62 : Alphabet → ℕ
digit_62 standard = b'+'
digit_62 url = b'-'

abbrev pub digit_63 : Alphabet → ℕ
digit_63 standard = b'/'
digit_63 url = b'_'

-- The character of a value below 64.
unfoldable pub char_of : Alphabet → ℕ → ℕ
char_of a d =
    if ltb d 26
    then d + b'A'
    else if ltb d 52
    then d + 71
    else if ltb d 62
    then d - 4
    else if d == 62
    then digit_62 a
    else digit_63 a

unfoldable pub digit_of : Alphabet → ℕ → Option ℕ
digit_of a c =
    if leb b'A' c && leb c b'Z'
    then some (c - b'A')
    else if leb b'a' c && leb c b'z'
    then some (c - 71)
    else if leb b'0' c && leb c b'9'
    then some (c + 4)
    else if c == digit_62 a
    then some 62
    else if c == digit_63 a
    then some 63
    else none

infixl 5 ◌>>=◌
abbrev ◌>>=◌ {ℓ κ} : {A : Type ℓ} {B : Type κ} → Option A → (A → Option B) → Option B
none >>= f = none
some a >>= f = f a

abbrev pub first_byte : ℕ → ℕ → ℕ
first_byte p q = p * 4 + q / 16

abbrev pub second_byte : ℕ → ℕ → ℕ
second_byte q r = q % 16 * 16 + r / 4

abbrev pub third_byte : ℕ → ℕ → ℕ
third_byte r s = r % 4 * 64 + s

module _ (a : Alphabet) where
  unfoldable pub encode_raw : Bytes → Bytes
  encode_raw [] = []
  encode_raw (x ∷ []) = char_of a (x / 4) ∷ char_of a (x % 4 * 16) ∷ []
  encode_raw (x ∷ y ∷ []) =
      char_of a (x / 4) ∷ char_of a (x % 4 * 16 + y / 16) ∷ char_of a (y % 16 * 4) ∷ []
  encode_raw (x ∷ y ∷ z ∷ rest) =
      char_of a (x / 4)
      ∷ char_of a (x % 4 * 16 + y / 16)
      ∷ char_of a (y % 16 * 4 + z / 64)
      ∷ char_of a (z % 64)
      ∷ encode_raw rest

  unfoldable pub encode_padded : Bytes → Bytes
  encode_padded [] = []
  encode_padded (x ∷ []) = char_of a (x / 4) ∷ char_of a (x % 4 * 16) ∷ pad ∷ pad ∷ []
  encode_padded (x ∷ y ∷ []) =
      char_of a (x / 4) ∷ char_of a (x % 4 * 16 + y / 16) ∷ char_of a (y % 16 * 4) ∷ pad ∷ []
  encode_padded (x ∷ y ∷ z ∷ rest) =
      char_of a (x / 4)
      ∷ char_of a (x % 4 * 16 + y / 16)
      ∷ char_of a (y % 16 * 4 + z / 64)
      ∷ char_of a (z % 64)
      ∷ encode_padded rest

  abbrev pub one_byte : ℕ → ℕ → Option Bytes
  one_byte c d = do p ← digit_of a c; q ← digit_of a d; some (first_byte p q ∷ [])

  abbrev pub two_bytes : ℕ → ℕ → ℕ → Option Bytes
  two_bytes c d e = do
    p ← digit_of a c
    q ← digit_of a d
    r ← digit_of a e
    some (first_byte p q ∷ second_byte q r ∷ [])

  abbrev pub group : ℕ → ℕ → ℕ → ℕ → Option Bytes → Option Bytes
  group c d e f rest = do
    p ← digit_of a c
    q ← digit_of a d
    r ← digit_of a e
    s ← digit_of a f
    more ← rest
    some (first_byte p q ∷ second_byte q r ∷ third_byte r s ∷ more)

  unfoldable pub groups_raw : Bytes → Option Bytes
  groups_raw [] = some []
  groups_raw (c ∷ []) = none
  groups_raw (c ∷ d ∷ []) = one_byte c d
  groups_raw (c ∷ d ∷ e ∷ []) = two_bytes c d e
  groups_raw (c ∷ d ∷ e ∷ f ∷ rest) = group c d e f (groups_raw rest)

  -- The group that a pad character ends, which must be the last.
  unfoldable pub last_group : ℕ → ℕ → ℕ → Bytes → Option Bytes
  last_group c d e [] = if e == pad then one_byte c d else two_bytes c d e
  last_group c d e (f ∷ rest) = none

  unfoldable pub groups_padded : Bytes → Option Bytes
  groups_padded [] = some []
  groups_padded (c ∷ []) = none
  groups_padded (c ∷ d ∷ []) = none
  groups_padded (c ∷ d ∷ e ∷ []) = none
  groups_padded (c ∷ d ∷ e ∷ f ∷ rest) =
      let more = groups_padded rest in
      if f == pad then last_group c d e rest else group c d e f more

unfoldable pub skip_breaks : Bytes → Bytes
skip_breaks [] = []
skip_breaks (c ∷ s) = if c == 10 || c == 13 then skip_breaks s else c ∷ skip_breaks s

-- `base64.RawURLEncoding`
unfoldable pub raw_url_encode : Bytes → Bytes
raw_url_encode = encode_raw url

unfoldable pub raw_url_decode : Bytes → Option Bytes
raw_url_decode s = groups_raw url (skip_breaks s)

-- `base64.StdEncoding`
unfoldable pub std_encode : Bytes → Bytes
std_encode = encode_padded standard

unfoldable pub std_decode : Bytes → Option Bytes
std_decode s = groups_padded standard (skip_breaks s)
