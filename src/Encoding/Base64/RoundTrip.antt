-- ===== src/Encoding/Base64/RoundTrip.antt =====
-- Decoding of what the encoders write.
use howdah.Base.{ℕ, [], ◌∷◌, ◌+◌, ◌*◌, ◌/◌, ◌%◌, ◌<◌, ◌≡◌, ◌≢◌, refl, Option, some, arith, All}
use howdah.Base.Bytes.{Bytes, IsBytes}
use howdah.Encoding.Base64.{
  Alphabet, standard, url, pad, char_of, digit_of, encode_raw, encode_padded, groups_raw,
  groups_padded, last_group, skip_breaks, one_byte, two_bytes, group, raw_url_encode,
  raw_url_decode, std_encode, std_decode,
}

digit_of-char_of : (a : Alphabet) (d : ℕ) → d < 64 → digit_of a (char_of a d) ≡ some d
unfolding digit_of char_of
digit_of-char_of standard d h = ground arith
digit_of-char_of url d h = ground arith

abbrev IsPlain : ℕ → Type 0
IsPlain c = (c ≢ 10) × (c ≢ 13) × (c ≢ pad)

char_of-IsPlain : (a : Alphabet) (d : ℕ) → d < 64 → IsPlain (char_of a d)
unfolding char_of
char_of-IsPlain standard d h = ground arith
char_of-IsPlain url d h = ground arith

module _ (a : Alphabet) (x : ℕ) (hx : x < 256) where
  one_byte-char_of : one_byte a (char_of a (x / 4)) (char_of a (x % 4 * 16)) ≡ some (x ∷ [])
  one_byte-char_of = ground (
    arith,
    digit_of-char_of a (x / 4) (omega arith),
    digit_of-char_of a (x % 4 * 16) (omega arith),
  )

  module _ (y : ℕ) (hy : y < 256) where
    two_bytes-char_of :
        two_bytes a (char_of a (x / 4)) (char_of a (x % 4 * 16 + y / 16)) (char_of a (y % 16 * 4))
        ≡ some (x ∷ y ∷ [])
    two_bytes-char_of = ground (
      arith,
      digit_of-char_of a (x / 4) (omega arith),
      digit_of-char_of a (x % 4 * 16 + y / 16) (omega arith),
      digit_of-char_of a (y % 16 * 4) (omega arith),
    )

    group-char_of :
        (z : ℕ) (rest : Option Bytes) (more : Bytes)
        → z < 256
        → rest ≡ some more
        → group a
            (char_of a (x / 4))
            (char_of a (x % 4 * 16 + y / 16))
            (char_of a (y % 16 * 4 + z / 64))
            (char_of a (z % 64))
            rest
          ≡ some (x ∷ y ∷ z ∷ more)
    group-char_of z rest more hz e = ground (
      arith,
      digit_of-char_of a (x / 4) (omega arith),
      digit_of-char_of a (x % 4 * 16 + y / 16) (omega arith),
      digit_of-char_of a (y % 16 * 4 + z / 64) (omega arith),
      digit_of-char_of a (z % 64) (omega arith),
    )

groups_raw-encode_raw :
    (a : Alphabet) (xs : Bytes) → IsBytes xs → groups_raw a (encode_raw a xs) ≡ some xs
unfolding groups_raw encode_raw
groups_raw-encode_raw a [] h = refl
groups_raw-encode_raw a (x ∷ []) (hx, _) = one_byte-char_of a x hx
groups_raw-encode_raw a (x ∷ y ∷ []) (hx, (hy, _)) = two_bytes-char_of a x hx y hy
groups_raw-encode_raw a (x ∷ y ∷ z ∷ xs) (hx, (hy, (hz, h))) =
    group-char_of a x hx y hy z _ xs hz (groups_raw-encode_raw a xs h)

groups_padded-encode_padded :
    (a : Alphabet) (xs : Bytes) → IsBytes xs → groups_padded a (encode_padded a xs) ≡ some xs
unfolding groups_padded encode_padded last_group
groups_padded-encode_padded a [] h = refl
groups_padded-encode_padded a (x ∷ []) (hx, _) = one_byte-char_of a x hx
groups_padded-encode_padded a (x ∷ y ∷ []) (hx, (hy, _)) =
    ground (arith, char_of-IsPlain a (y % 16 * 4) (omega arith), two_bytes-char_of a x hx y hy)
groups_padded-encode_padded a (x ∷ y ∷ z ∷ xs) (hx, (hy, (hz, h))) = ground (
  arith,
  char_of-IsPlain a (z % 64) (omega arith),
  group-char_of a x hx y hy z _ xs hz (groups_padded-encode_padded a xs h),
)

abbrev NoBreak : ℕ → Type 0
NoBreak c = (c ≢ 10) × (c ≢ 13)

skip_breaks-NoBreak : (s : Bytes) → All NoBreak s → skip_breaks s ≡ s
unfolding skip_breaks
skip_breaks-NoBreak [] h = refl
skip_breaks-NoBreak (c ∷ s) (n, h) = ground (arith, skip_breaks-NoBreak s h)

char_of-NoBreak : (a : Alphabet) (d : ℕ) → d < 64 → NoBreak (char_of a d)
char_of-NoBreak a d h = let (n, r, _) = char_of-IsPlain a d h in (n, r)

encode_raw-NoBreak : (a : Alphabet) (xs : Bytes) → IsBytes xs → All NoBreak (encode_raw a xs)
unfolding encode_raw
encode_raw-NoBreak a [] h = tt
encode_raw-NoBreak a (x ∷ []) (hx, _) =
    (char_of-NoBreak a _ (omega arith), (char_of-NoBreak a _ (omega arith), tt))
encode_raw-NoBreak a (x ∷ y ∷ []) (hx, (hy, _)) = (
  char_of-NoBreak a _ (omega arith),
  (char_of-NoBreak a _ (omega arith), (char_of-NoBreak a _ (omega arith), tt)),
)
encode_raw-NoBreak a (x ∷ y ∷ z ∷ xs) (hx, (hy, (hz, h))) = (
  char_of-NoBreak a _ (omega arith),
  (
    char_of-NoBreak a _ (omega arith),
    (
      char_of-NoBreak a _ (omega arith),
      (char_of-NoBreak a _ (omega arith), encode_raw-NoBreak a xs h),
    ),
  ),
)

encode_padded-NoBreak : (a : Alphabet) (xs : Bytes) → IsBytes xs → All NoBreak (encode_padded a xs)
unfolding encode_padded
encode_padded-NoBreak a [] h = tt
encode_padded-NoBreak a (x ∷ []) (hx, _) =
    (char_of-NoBreak a _ (omega arith), (char_of-NoBreak a _ (omega arith), omega arith))
encode_padded-NoBreak a (x ∷ y ∷ []) (hx, (hy, _)) = (
  char_of-NoBreak a _ (omega arith),
  (char_of-NoBreak a _ (omega arith), (char_of-NoBreak a _ (omega arith), omega arith)),
)
encode_padded-NoBreak a (x ∷ y ∷ z ∷ xs) (hx, (hy, (hz, h))) = (
  char_of-NoBreak a _ (omega arith),
  (
    char_of-NoBreak a _ (omega arith),
    (
      char_of-NoBreak a _ (omega arith),
      (char_of-NoBreak a _ (omega arith), encode_padded-NoBreak a xs h),
    ),
  ),
)

pub raw_url_decode-encode : (xs : Bytes) → IsBytes xs → raw_url_decode (raw_url_encode xs) ≡ some xs
unfolding raw_url_decode raw_url_encode
raw_url_decode-encode xs h =
    rw (skip_breaks-NoBreak _ (encode_raw-NoBreak url xs h)) (groups_raw-encode_raw url xs h)

pub std_decode-encode : (xs : Bytes) → IsBytes xs → std_decode (std_encode xs) ≡ some xs
unfolding std_decode std_encode
std_decode-encode xs h =
    rw (skip_breaks-NoBreak _ (encode_padded-NoBreak standard xs h))
      (groups_padded-encode_padded standard xs h)
