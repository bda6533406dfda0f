-- ===== src/Token.antt =====
-- token.go: the round trip to the token endpoint and its answer. `media_type` is the type that
-- mime.ParseMediaType gives, `parse_query` is url.ParseQuery, `decode` and `number` are encoding/json
-- on the response and on a json.Number, and `retrieve_error` makes an oauth2.RetrieveError of the
-- error detail.
pub mod Numbers
pub mod Lifetime
use howdah.Base.{
  ℕ, ◌*◌, ◌^◌, ◌+◌, ◌-◌, List, [], ◌∷◌, Bool, true, false, not, ◌||◌, Option, none, some, ◌==◌,
  nat_eq, if◌then◌else◌, ltb, take,
}
use howdah.Base.Bytes.{Bytes, bytes, bytes_eq}
use howdah.Base.Dict.{lookup}
use howdah.Base.Int.{ℤ, pos, negsuc, int_eq, int_ltb}
use howdah.Clock.{Time, Duration, second, zero_time, add_duration}
use howdah.Errors.{Error, Text, message, lit, raw, Result, ok, err, wrapped, ◌>>=◌}
use howdah.Errors.Http.{error_text}
use howdah.Session.{OauthToken}
use howdah.Base.Words.{to_int32, to_int64, times}
use howdah.Token.Numbers.{parse_int, atoi, Parsed, or_error}

-- An http.Response; `body` is what reading all of it gives.
pub record Response : Type 0 where
  pub status : ℕ
  pub content_type : Bytes
  pub body : Result Bytes

-- The error fields of the endpoint's answer.
pub record ErrorDetail : Type 0 where
  pub error_code : Bytes
  pub error_description : Bytes
  pub error_uri : Bytes

-- The tokenJSON fields, with `expires_in` as the text that UnmarshalJSON is given, where it is there.
pub record TokenJson : Type 0 where
  pub access_token : Bytes
  pub token_type : Bytes
  pub refresh_token : Bytes
  pub expires_in : Option Bytes
  pub detail : ErrorDetail

pub record Formats : Type 0 where
  pub media_type : Bytes → Bytes
  pub parse_query : Bytes → Result (List (Bytes × Bytes))
  pub decode : Bytes → Result TokenJson
  pub number : Bytes → Result Bytes
  pub retrieve_error : ErrorDetail → Error

abbrev pub body_limit : ℕ
body_limit = 2 ^ 20

abbrev pub largest_int32 : ℤ
largest_int32 = pos (2 ^ 31 - 1)

-- `fmt.Errorf("…: %v", err)`, which wraps nothing.
abbrev pub reported {ℓ} : {A : Type ℓ} → Text → Error → Result A
reported text e = err (message (text ∷ raw (error_text e) ∷ []))

abbrev pub limited : Result Bytes → Result Bytes
limited (err e) = reported (lit "oauth2: cannot fetch token: ") e
limited (ok body) = ok (take body_limit body)

-- A number of seconds from now, where there is one.
unfoldable pub expiry_in : Time → ℤ → Time
unfolding times to_int64
expiry_in now seconds =
    if seconds == pos 0 then zero_time else add_duration now (to_int64 (times seconds second))

-- The token that the answer holds, and its error detail.
abbrev pub Answer : Type 0
Answer = OauthToken × ErrorDetail

abbrev pub get_value : List (Bytes × Bytes) → Bytes → Bytes
unfolding lookup
get_value vals key = elim (lookup key vals) [ none ↦ [] | some value ↦ value ]

unfoldable pub form_answer : Time → List (Bytes × Bytes) → Answer
unfolding expiry_in atoi lookup
form_answer now vals = (
  record {
    access_token = get_value vals (bytes "access_token");
    token_type = get_value vals (bytes "token_type");
    refresh_token = get_value vals (bytes "refresh_token");
    expiry = expiry_in now (atoi (get_value vals (bytes "expires_in")));
    expires_in = pos 0;
    id_token = none;
  },
  record {
    error_code = get_value vals (bytes "error");
    error_description = get_value vals (bytes "error_description");
    error_uri = get_value vals (bytes "error_uri");
  },
)

module _ (f : Formats) where
  abbrev pub clamp_int32 : ℤ → ℤ
  clamp_int32 i = if int_ltb largest_int32 i then largest_int32 else i

  -- UnmarshalJSON of expirationTime on a zero value.
  unfoldable pub expiration_time : Bytes → Result ℤ
  unfolding parse_int to_int32
  expiration_time b =
      if b == [] || b == bytes "null"
      then ok (pos 0)
      else f.number b >>= λ n. or_error (parse_int n) >>= λ i. ok (to_int32 (clamp_int32 i))

  abbrev pub expires_of : Option Bytes → Result ℤ
  expires_of none = ok (pos 0)
  expires_of (some b) = expiration_time b

  unfoldable pub json_answer : Time → Bytes → Result Answer
  unfolding expiry_in expiration_time
  json_answer now body = do
    tj ← f.decode body
    seconds ← expires_of tj.expires_in
    ok (
      record {
        access_token = tj.access_token;
        token_type = tj.token_type;
        refresh_token = tj.refresh_token;
        expiry = expiry_in now seconds;
        expires_in = seconds;
        id_token = none;
      },
      tj.detail,
    )

  abbrev pub no_detail : ErrorDetail
  no_detail = record { error_code = []; error_description = []; error_uri = [] }

  -- An answer that does not parse: the failure status is what is reported, where there is one.
  abbrev pub parsed_or : Bool → Text → Result Answer → Result Answer
  parsed_or failed text (ok answer) = ok answer
  parsed_or true text (err e) = err (f.retrieve_error no_detail)
  parsed_or false text (err e) = reported text e

  abbrev pub formed : Time → Result (List (Bytes × Bytes)) → Result Answer
  formed now (err e) = err e
  formed now (ok vals) = ok (form_answer now vals)

  abbrev pub is_form : Bytes → Bool
  is_form content =
      content == bytes "application/x-www-form-urlencoded" || content == bytes "text/plain"

  abbrev pub answer_of : Time → Bool → Bytes → Bytes → Result Answer
  answer_of now failed content body =
      if is_form content
      then parsed_or failed (lit "oauth2: cannot parse response: ")
          (formed now (f.parse_query body))
      else parsed_or failed (lit "oauth2: cannot parse json: ") (json_answer now body)

  abbrev pub require_access : Bool → Answer → Result OauthToken
  require_access failed (tok, detail) =
      if failed || not (detail.error_code == [])
      then err (f.retrieve_error detail)
      else if tok.access_token == []
      then err (message (lit "oauth2: server response missing access_token" ∷ []))
      else ok tok

  abbrev pub failure_status : ℕ → Bool
  failure_status status = ltb status 200 || ltb 299 status

  -- `response` is what the client's Do gives.
  unfoldable pub do_token_round_trip : Time → Result Response → Result OauthToken
  unfolding json_answer form_answer
  do_token_round_trip now response = do
    r ← response
    body ← limited r.body
    answer ← answer_of now (failure_status r.status) (f.media_type r.content_type) body
    require_access (failure_status r.status) answer
