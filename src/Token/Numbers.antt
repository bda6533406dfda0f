-- ===== src/Token/Numbers.antt =====
-- strconv's ParseInt and Atoi in base 10.
use howdah.Base.{ℕ, ◌*◌, ◌^◌, ◌+◌, ◌-◌, [], ◌∷◌, ◌&&◌, ◌==◌, nat_eq, if◌then◌else◌, ltb, leb}
use howdah.Base.Bytes.{Bytes}
use howdah.Base.Int.{ℤ, pos, negsuc}
use howdah.Errors.{message, lit, Result, ok, err}

-- A number out of range comes with the nearest one in range.
pub data Parsed : Type 0 where
  parsed : ℤ → Parsed
  syntax : Parsed
  out_of_range : ℤ → Parsed

pub data Digits : Type 0 where
  digits : ℕ → Digits
  invalid : Digits
  too_many : Digits

-- ParseUint's loop over the digits, which ends at the first that is none or does not fit 64 bits.
unfoldable pub scan_digits : ℕ → Bytes → Digits
scan_digits n [] = digits n
scan_digits n (c ∷ s) =
    let rest = scan_digits (n * 10 + (c - b'0')) s in
    if leb b'0' c && leb c b'9'
    then if ltb (n * 10 + (c - b'0')) (2 ^ 64) then rest else too_many
    else invalid

abbrev pub unsigned : Bytes → Digits
unfolding scan_digits
unsigned [] = invalid
unsigned (c ∷ s) = scan_digits 0 (c ∷ s)

abbrev pub positive : Digits → Parsed
positive invalid = syntax
positive too_many = out_of_range (pos (2 ^ 63 - 1))
positive (digits n) = if ltb n (2 ^ 63) then parsed (pos n) else out_of_range (pos (2 ^ 63 - 1))

abbrev pub negative : Digits → Parsed
negative invalid = syntax
negative too_many = out_of_range (negsuc (2 ^ 63 - 1))
negative (digits n) =
    if ltb (2 ^ 63) n
    then out_of_range (negsuc (2 ^ 63 - 1))
    else if n == 0
    then parsed (pos 0)
    else parsed (negsuc (n - 1))

unfoldable pub parse_int : Bytes → Parsed
unfolding scan_digits
parse_int [] = syntax
parse_int (c ∷ s) =
    if c == b'-'
    then negative (unsigned s)
    else if c == b'+'
    then positive (unsigned s)
    else positive (unsigned (c ∷ s))

-- The value that Atoi returns, its error ignored.
abbrev pub value_of : Parsed → ℤ
value_of (parsed i) = i
value_of syntax = pos 0
value_of (out_of_range i) = i

unfoldable pub atoi : Bytes → ℤ
unfolding parse_int
atoi s = value_of (parse_int s)

abbrev pub or_error : Parsed → Result ℤ
or_error (parsed i) = ok i
or_error syntax = err (message (lit "strconv.ParseInt: invalid syntax" ∷ []))
or_error (out_of_range i) = err (message (lit "strconv.ParseInt: value out of range" ∷ []))
