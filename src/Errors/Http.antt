-- ===== src/Errors/Http.antt =====
-- http_err.go, and the labels of elements.go that it is given.
use howdah.Base.{ℕ, String, List, [], ◌∷◌, ◌++◌, Option, none, some, ◌≡◌, refl, arith}
use howdah.Base.Bytes.{Bytes, bytes}
use howdah.Errors.{
  Sentinel, Error, sentinel, message, wrap, wrap_both, http, TextLabel, Text, lit, raw, Message,
  Sentinel,
}

abbrev pub status_forbidden : ℕ
status_forbidden = 403

abbrev pub status_internal_server_error : ℕ
status_internal_server_error = 500

abbrev pub status_service_unavailable : ℕ
status_service_unavailable = 503

abbrev pub label : Message → TextLabel
label m = record { literal = []; message = some m; values = none; plural_count = none }

abbrev pub t_msg : Message → TextLabel
t_msg m = label m

-- More than one form leaves the text empty.
abbrev pub tl : String → List String → TextLabel
tl str [] = label (record { id = str; other = str })
tl str (form ∷ []) = label (record { id = str; other = form })
tl str (form ∷ more ∷ rest) = label (record { id = str; other = "" })

abbrev pub t_literal : Bytes → TextLabel
t_literal str = record { literal = str; message = none; values = none; plural_count = none }

abbrev joined : List Text → Bytes
joined [] = []
joined (lit s ∷ ts) = bytes s ++ joined ts
joined (raw s ∷ ts) = s ++ joined ts

-- The text between two wrapped errors.
abbrev between : List Text → Bytes
between [] = []
between (t ∷ ts) = joined (t ∷ ts) ++ bytes ": "

abbrev sentinel_text : Sentinel → String
sentinel_text Sentinel.not_sealed = "not a sealed value"
sentinel_text Sentinel.unknown_version = "unknown envelope version"
sentinel_text Sentinel.unknown_key = "unknown cookie key"
sentinel_text Sentinel.wrong_session_kind = "wrong session kind"
sentinel_text Sentinel.authentication = "envelope failed authentication"
sentinel_text Sentinel.no_cookie_keyring = "the cookie keyring is not initialised"
sentinel_text Sentinel.no_session = "no session"
sentinel_text Sentinel.refresh_rejected = "the token refresh was rejected"
sentinel_text Sentinel.skip_render = "skip render"
sentinel_text Sentinel.refresh_timeout = "timed out waiting for a concurrent refresh"
sentinel_text Sentinel.lease_lost = "the refresh lease was lost"
sentinel_text Sentinel.no_rows = "no rows in result set"

-- `err.Error()`
pub error_text : Error → Bytes
error_text (sentinel s) = bytes (sentinel_text s)
error_text (message text) = joined text
error_text (wrap text e) = joined text ++ (bytes ": " ++ error_text e)
error_text (wrap_both e text f) = error_text e ++ (bytes ": " ++ (between text ++ error_text f))
error_text (http code l e) = error_text e

unfoldable pub new_http_error : ℕ → String → String → Error → Error
new_http_error code msg_id text cause = http code (tl msg_id (text ∷ [])) cause

unfoldable pub internal_http_error : Error → Error
unfolding new_http_error
internal_http_error cause =
    new_http_error status_internal_server_error "UnexpectedError" "Encountered an unexpected error"
      cause

unfoldable pub literal_http_error : ℕ → Error → Error
literal_http_error code e = http code (t_literal (error_text e)) e

-- The Code and Message of an HTTPError.
pub record HttpError : Type 0 where
  pub code : ℕ
  pub message : TextLabel

-- The search of `errors.As` for an HTTPError: the outermost, and the first of two wrapped errors.
unfoldable pub find_http : Error → Option HttpError
find_http (sentinel s) = none
find_http (message text) = none
find_http (wrap text e) = find_http e
find_http (wrap_both e text f) = elim (find_http e) [ some h ↦ some h | none ↦ find_http f ]
find_http (http code l e) = some (record { code = code; message = l })

abbrev found_or_internal : Option HttpError → HttpError
found_or_internal (some h) = h
found_or_internal none = record {
  code = status_internal_server_error;
  message = tl "UnexpectedError" ("Encountered an unexpected error" ∷ []);
}

unfoldable pub as_http_error : Error → HttpError
unfolding find_http
as_http_error e = found_or_internal (find_http e)

-- No HTTPError stands anywhere in the chain.
abbrev pub NoHttp : Error → Type 0
NoHttp (sentinel s) = Unit
NoHttp (message text) = Unit
NoHttp (wrap text e) = NoHttp e
NoHttp (wrap_both e text f) = NoHttp e × NoHttp f
NoHttp (http code l e) = ⊥

pub find_http-none : (e : Error) → NoHttp e → find_http e ≡ none
unfolding find_http
find_http-none (sentinel s) h = refl
find_http-none (message text) h = refl
find_http-none (wrap text e) h = find_http-none e h
find_http-none (wrap_both e text f) h = ground (arith, find_http-none e h.0, find_http-none f h.1)
find_http-none (http code l e) h = absurd h
