-- ===== src/Keyring.antt =====
-- cookie_keyring.go: the keyring, its construction and the choice of the key to seal with.
pub mod Env
pub mod Sorting
pub mod Selection
pub mod Construction
pub mod Acceptance
use howdah.Base.{
  ℕ, List, [], ◌∷◌, ◌++◌, Bool, true, false, ◌&&◌, Option, none, some, ◌≡◌, ◌↔◌, arith, ltb, length,
  take, ◌%◌, ◌==◌, Eq, nat_eq, if◌then◌else◌,
}
use howdah.Base.Int.{ℤ, int_eq}
use howdah.Base.Bytes.{Bytes, bytes, bytes_eq}
use howdah.Base.Dict.{lookup, insert}
use howdah.Clock.{Time, after, unix, nanosecond, zero_time}
use howdah.Crypto.{Crypto}
use howdah.Errors.{Text, lit, raw, Error, message, wrap, Result, ok, err, ◌>>=◌}

abbrev pub cookie_key_secret_length : ℕ
cookie_key_secret_length = 32

abbrev pub cookie_key_id_length : ℕ
cookie_key_id_length = 8

abbrev pub cookie_key_id_label : Bytes
cookie_key_id_label = bytes "howdah-cookie-key-v1"

pub record CookieKey : Type 0 where
  pub use_after : Time
  pub secret : Bytes

-- The cipher is known by the secret it was built from.
pub record KeyEntry : Type 0 where
  pub kid : Bytes
  pub use_after : Time
  pub aead : Bytes

pub record CookieKeyring : Type 0 where
  pub keys : List (Bytes × KeyEntry)
  pub by_use_after : List KeyEntry

pub record Instant : Type 0 where
  pub seconds : ℤ
  pub nanoseconds : ℕ

unfoldable pub instant : Time → Instant
instant t = record { seconds = unix t; nanoseconds = nanosecond t }

abbrev pub instant_beq : Instant → Instant → Bool
instant_beq a b = a.seconds == b.seconds && a.nanoseconds == b.nanoseconds

pub instant_beq_iff : (a b : Instant) → (instant_beq a b ≡ true) ↔ (a ≡ b)
instant_beq_iff a b =
    ground (arith, int_eq.beq_iff a.seconds b.seconds, nat_eq.beq_iff a.nanoseconds b.nanoseconds)

instance abbrev pub instant_eq : Eq Instant
instant_eq = record { beq = instant_beq; beq_iff = instant_beq_iff }

-- What `newCookieKeyring` logs at level info.
pub record Selected : Type 0 where
  pub kid : Bytes
  pub use_after : Time
  pub keyring_size : ℕ
  pub next : Option (Bytes × Time)

-- The loop of `sealingKey`.
unfoldable pub eligible : List KeyEntry → Time → Option KeyEntry
eligible [] now = none
eligible (key ∷ rest) now = if after key.use_after now then eligible rest now else some key

-- A nil keyring has no key.
unfoldable pub sealing_key : Option CookieKeyring → Time → Option KeyEntry
unfolding eligible
sealing_key none now = none
sealing_key (some k) now = eligible k.by_use_after now

-- The insertion of `slices.SortFunc` by latest use-after first.
unfoldable pub insert_latest : KeyEntry → List KeyEntry → List KeyEntry
insert_latest key [] = key ∷ []
insert_latest key (other ∷ rest) =
    if ltb key.use_after other.use_after then other ∷ insert_latest key rest else key ∷ other ∷ rest

unfoldable pub sort_latest : List KeyEntry → List KeyEntry
unfolding insert_latest
sort_latest [] = []
sort_latest (key ∷ rest) = insert_latest key (sort_latest rest)

module _ (c : Crypto) where
  unfoldable pub cookie_key_id : Bytes → Bytes
  cookie_key_id secret = take cookie_key_id_length (c.sha256 (cookie_key_id_label ++ secret))

  abbrev pub key_entry : CookieKey → KeyEntry
  key_entry key = record {
    kid = cookie_key_id key.secret;
    use_after = key.use_after;
    aead = key.secret;
  }

-- The variables of the loop of `newCookieKeyring`.
pub record Building : Type 0 where
  pub keys : List (Bytes × KeyEntry)
  pub by_use_after : List KeyEntry
  pub kid_labels : List (Bytes × Bytes)
  pub use_after_labels : List (Instant × Bytes)

abbrev pub building : Building
building = record { keys = []; by_use_after = []; kid_labels = []; use_after_labels = [] }

abbrev pub none_or {ℓ} : {A : Type ℓ} → Option Error → List Text → Result A → Result A
none_or none text next = next
none_or (some e) text next = err (wrap text e)

abbrev pub absent {ℓ} : {A : Type ℓ} → Option Bytes → (Bytes → Error) → Result A → Result A
absent none report next = next
absent (some other) report next = err (report other)

abbrev pub wrong_length : Bytes → Error
wrong_length label = message (raw label ∷ lit ": secret must be 32 bytes" ∷ [])

abbrev pub same_secret : Bytes → Bytes → Error
same_secret label other =
    message (raw other ∷ lit " and " ∷ raw label ∷ lit " hold the same secret" ∷ [])

abbrev pub same_use_after : Bytes → Bytes → Error
same_use_after label other = message (
    raw other
    ∷ lit " and "
    ∷ raw label
    ∷ lit " share the use-after, so the sealing key would be a coin flip"
    ∷ [])

module _ (c : Crypto) where
  -- One round of the loop.
  unfoldable pub add_key : CookieKey → Bytes → Building → Result Building
  add_key key label b =
      let entry = key_entry c key in
      let at = instant key.use_after in
      if length key.secret == cookie_key_secret_length
      then none_or (c.cipher_error key.secret) (raw label ∷ lit ": create cipher" ∷ []) (
          none_or (c.gcm_error key.secret) (raw label ∷ lit ": create GCM" ∷ []) (
            absent (lookup entry.kid b.kid_labels) (same_secret label) (
              absent (lookup at b.use_after_labels) (same_use_after label) (
                ok (record {
                  keys = insert entry.kid entry b.keys;
                  by_use_after = b.by_use_after ++ entry ∷ [];
                  kid_labels = insert entry.kid label b.kid_labels;
                  use_after_labels = insert at label b.use_after_labels;
                })))))
      else err (wrong_length label)

  unfoldable pub add_keys : List (CookieKey × Bytes) → Building → Result Building
  add_keys [] b = ok b
  add_keys ((key, label) ∷ rest) b = add_key key label b >>= add_keys rest

-- The entry before the sealing key, the next to take over.
unfoldable pub next_key : List KeyEntry → Bytes → Option (Bytes × Time)
next_key [] kid = none
next_key (key ∷ []) kid = none
next_key (key ∷ sealing ∷ rest) kid =
    if sealing.kid == kid then some (key.kid, key.use_after) else next_key (sealing ∷ rest) kid

abbrev pub sorted : Building → CookieKeyring
sorted b = record { keys = b.keys; by_use_after = sort_latest b.by_use_after }

unfoldable pub choose : CookieKeyring → Time → Result (CookieKeyring × Selected)
unfolding sealing_key next_key
choose k now = elim (sealing_key (some k) now) [
  | none ↦ err (
      message (
        lit "no cookie key is eligible for sealing: every configured key is dated in the future"
        ∷ []))
  | some seal_with ↦ ok (
    k,
    record {
      kid = seal_with.kid;
      use_after = seal_with.use_after;
      keyring_size = length k.keys;
      next = next_key k.by_use_after seal_with.kid;
    },
  )
]

module _ (c : Crypto) where
  -- `newCookieKeyring`: each key comes with what named it to the operator.
  unfoldable pub new_cookie_keyring :
      List (CookieKey × Bytes) → Time → Result (CookieKeyring × Selected)
  unfolding add_keys choose
  new_cookie_keyring [] now = err (message (lit "no cookie keys configured" ∷ []))
  new_cookie_keyring (key ∷ keys) now =
      add_keys c (key ∷ keys) building >>= λ b. choose (sorted b) now

-- `SealingKey`, with the key id in binary.
unfoldable pub sealing_key_snapshot : Option CookieKeyring → Time → Bytes × Time
unfolding sealing_key
sealing_key_snapshot k now = elim (sealing_key k now) [
  | none ↦ ([], zero_time)
  | some key ↦ (key.kid, key.use_after)
]
