-- ===== src/Encoding/Query.antt =====
-- Query strings of net/url: `url.QueryEscape`, and `Encode` of a `url.Values` with one value.
use howdah.Base.{
  ℕ, ◌+◌, ◌/◌, ◌%◌, [], ◌∷◌, ◌++◌, Bool, ◌&&◌, ◌||◌, ◌==◌, nat_eq, leb, ltb, if◌then◌else◌,
}
use howdah.Base.Bytes.{Bytes}

abbrev upper_digit : ℕ → ℕ
upper_digit n = if ltb n 10 then n + b'0' else n + 55

abbrev pub is_unreserved : ℕ → Bool
is_unreserved c =
    leb b'a' c && leb c b'z'
    || leb b'A' c && leb c b'Z'
    || leb b'0' c && leb c b'9'
    || c == b'-'
    || c == b'_'
    || c == b'.'
    || c == b'~'

unfoldable pub query_escape : Bytes → Bytes
query_escape [] = []
query_escape (c ∷ s) =
    let rest = query_escape s in
    if is_unreserved c
    then c ∷ rest
    else if c == b' '
    then b'+' ∷ rest
    else b'%' ∷ upper_digit (c / 16) ∷ upper_digit (c % 16) ∷ rest

unfoldable pub encode_values : Bytes → Bytes → Bytes
unfolding query_escape
encode_values key value = query_escape key ++ (b'=' ∷ query_escape value)
