-- ===== src/Errors.antt =====
-- Go's error values as the program builds them: sentinels, wrapped errors and the HTTPError of
-- http_err.go. An error's text is the list of its parts, less what is formatted from numbers and
-- times.
pub mod Http
use howdah.Base.{ℕ, String, List, Bool, false, ◌||◌, Option, ◌≡◌, refl, ◌⊎◌, inl, inr, ◌==◌, nat_eq}
use howdah.Base.Bytes.{Bytes}

-- The package-level error values that callers compare with `errors.Is`.
pub data Sentinel : Type 0 where
  not_sealed unknown_version unknown_key wrong_session_kind authentication : Sentinel
  no_cookie_keyring no_session refresh_rejected skip_render : Sentinel
  refresh_timeout lease_lost no_rows : Sentinel

-- A part of a text: a literal, or a string that the program computes.
pub data Text : Type 0 where
  lit : String → Text
  raw : Bytes → Text

-- An i18n.Message, of which the program sets these two fields.
pub record Message : Type 0 where
  pub id : String
  pub other : String

-- Values is a value handed on to the localizer unread, known by a number.
pub record TextLabel : Type 0 where
  pub literal : Bytes
  pub message : Option Message
  pub values : Option ℕ
  pub plural_count : Option ℕ

pub data Error : Type 0 where
  sentinel : Sentinel → Error
  message : List Text → Error
  wrap : List Text → Error → Error
  wrap_both : Error → List Text → Error → Error
  http : ℕ → TextLabel → Error → Error

pub data Result {ℓ} (A : Type ℓ) : Type ℓ where
  ok : A → Result A
  err : Error → Result A

infixl 5 ◌>>=◌
abbrev pub ◌>>=◌ {ℓ κ} : {A : Type ℓ} {B : Type κ} → Result A → (A → Result B) → Result B
ok x >>= next = next x
err e >>= next = err e

-- `if err != nil { return fmt.Errorf("…: %w", err) }`
abbrev pub wrapped {ℓ} : {A : Type ℓ} → List Text → Result A → Result A
wrapped text (ok a) = ok a
wrapped text (err e) = err (wrap text e)

-- A chain that gives a result has passed its first step.
pub >>=-eq-ok {ℓ κ} :
    {A : Type ℓ} {B : Type κ} (first : Result A) (next : A → Result B) {b : B}
    → (first >>= next) ≡ ok b
    → (x : A) × (first ≡ ok x) × (next x ≡ ok b)
>>=-eq-ok (err e) next h = cc
>>=-eq-ok (ok x) next h = (x, refl, h)

pub wrapped-eq-ok {ℓ} :
    {A : Type ℓ} (text : List Text) (r : Result A) {a : A} → wrapped text r ≡ ok a → r ≡ ok a
wrapped-eq-ok text (ok b) h = h
wrapped-eq-ok text (err e) h = cc

pub Result-cases {ℓ} :
    {A : Type ℓ} (r : Result A) → ((a : A) × (r ≡ ok a)) ⊎ ((e : Error) × (r ≡ err e))
Result-cases (ok a) = inl (a, refl)
Result-cases (err e) = inr (e, refl)

-- Sentinels are compared by identity.
abbrev pub index : Sentinel → ℕ
index not_sealed = 0
index unknown_version = 1
index unknown_key = 2
index wrong_session_kind = 3
index authentication = 4
index no_cookie_keyring = 5
index no_session = 6
index refresh_rejected = 7
index skip_render = 8
index refresh_timeout = 9
index lease_lost = 10
index no_rows = 11

-- `errors.Is(e, s)`
unfoldable pub is : Error → Sentinel → Bool
is (sentinel t) s = index t == index s
is (message text) s = false
is (wrap text e) s = is e s
is (wrap_both e text f) s = is e s || is f s
is (http code label e) s = is e s
