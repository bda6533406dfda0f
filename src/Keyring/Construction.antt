-- ===== src/Keyring/Construction.antt =====
-- The loop of `newCookieKeyring` over the configured keys: its invariant, and when a round passes.
use howdah.Base.{
  ℕ, zero, suc, take, length-take, List, [], ◌∷◌, ◌++◌, ◌≡◌, refl, ◌≢◌, ◌↔◌, none, some, arith, All,
  All-map, AllPairs, AllPairs-concat, All-append_iff, In, In-append_left, In-append_right,
  All-append, ap, length, nat_eq, ==_iff,
}
use howdah.Base.Bytes.{IsBytes, Bytes, bytes_eq}
use howdah.Base.Int.{int_eq}
use howdah.Base.Dict.{lookup, insert, lookup-insert}
use howdah.Clock.{Time}
use howdah.Crypto.{Crypto, IsHash}
use howdah.Errors.{ok}
use howdah.Keyring.{
  cookie_key_id, cookie_key_id_length, cookie_key_id_label, CookieKey, KeyEntry, Instant, instant,
  instant_eq, Building, building, key_entry, add_key, cookie_key_secret_length,
}

-- Two instants are told apart exactly.
pub instant_injective : (t u : Time) → instant t ≡ instant u → t ≡ u
unfolding instant
instant_injective t u h =
    ground (arith, ap (λ (i : Instant). i.seconds) h, ap (λ (i : Instant). i.nanoseconds) h)

module _ (c : Crypto) where
  pub record IsValidKey (key : CookieKey) : Type 0 where
    pub full : length key.secret ≡ cookie_key_secret_length
    pub cipher : c.cipher_error key.secret ≡ none
    pub gcm : c.gcm_error key.secret ≡ none

-- Two keys that may stand in one keyring.
pub record Apart (a b : KeyEntry) : Type 0 where
  pub secrets : a.kid ≢ b.kid
  pub dates : a.use_after ≢ b.use_after

pub record IsBuilt (b : Building) : Type 0 where
  pub kids_known :
      (kid : Bytes) → (lookup kid b.kid_labels ≡ none) ↔ All (λ o. o.kid ≢ kid) b.by_use_after
  pub dates_known :
      (t : Time)
      → (lookup (instant t) b.use_after_labels ≡ none) ↔ All (λ o. o.use_after ≢ t) b.by_use_after
  pub keys_hold : All (λ o. lookup o.kid b.keys ≡ some o) b.by_use_after
  pub keys_listed :
      (kid : Bytes) (e : KeyEntry)
      → lookup kid b.keys ≡ some e
      → (e.kid ≡ kid) × In e b.by_use_after
  pub apart : AllPairs Apart b.by_use_after

pub building-IsBuilt : IsBuilt building
unfolding lookup
building-IsBuilt = record {
  kids_known = λ kid. (λ _. tt, λ _. refl);
  dates_known = λ t. (λ _. tt, λ _. refl);
  keys_hold = tt;
  keys_listed = λ kid e h. cc;
  apart = tt;
}

abbrev pub extended : Crypto → CookieKey → Bytes → Building → Building
extended c key label b = record {
  keys = insert (key_entry c key).kid (key_entry c key) b.keys;
  by_use_after = b.by_use_after ++ key_entry c key ∷ [];
  kid_labels = insert (key_entry c key).kid label b.kid_labels;
  use_after_labels = insert (instant key.use_after) label b.use_after_labels;
}

All-Apart :
    (e : KeyEntry) (os : List KeyEntry)
    → All (λ o. o.kid ≢ e.kid) os
    → All (λ o. o.use_after ≢ e.use_after) os
    → All (λ o. Apart o e) os
All-Apart e [] h k = tt
All-Apart e (o ∷ os) (p, h) (q, k) = (record { secrets = p; dates = q }, All-Apart e os h k)

module _ (c : Crypto) (key : CookieKey) (label : Bytes) (b : Building) where
  pub add_key_accepts :
      IsBuilt b
      → IsValidKey c key
      → All (λ o. Apart o (key_entry c key)) b.by_use_after
      → add_key c key label b ≡ ok (extended c key label b)
  unfolding add_key
  add_key_accepts v valid apart = ground (
    arith,
    (v.kids_known (key_entry c key).kid).1 (All-map (λ o p. p.secrets) b.by_use_after apart),
    (v.dates_known key.use_after).1 (All-map (λ o p. p.dates) b.by_use_after apart),
  )

  pub add_key_only :
      (b' : Building)
      → IsBuilt b
      → add_key c key label b ≡ ok b'
      → IsValidKey c key
        × All (λ o. Apart o (key_entry c key)) b.by_use_after
        × (b' ≡ extended c key label b)
  unfolding add_key
  add_key_only b' v h = ground (
    arith,
    v.kids_known (key_entry c key).kid,
    v.dates_known key.use_after,
    All-Apart (key_entry c key) b.by_use_after,
  )

insert_self :
    (e : KeyEntry) (keys : List (Bytes × KeyEntry)) → lookup e.kid (insert e.kid e keys) ≡ some e
insert_self e keys = ground (arith, lookup-insert e.kid e.kid e keys, ==_iff e.kid e.kid)

insert_other :
    (e : KeyEntry) (keys : List (Bytes × KeyEntry)) (os : List KeyEntry)
    → All (λ o. Apart o e) os
    → All (λ o. lookup o.kid keys ≡ some o) os
    → All (λ o. lookup o.kid (insert e.kid e keys) ≡ some o) os
insert_other e keys [] h k = tt
insert_other e keys (o ∷ os) (p, h) (q, k) = (
  ground (arith, lookup-insert e.kid o.kid e keys, ==_iff e.kid o.kid),
  insert_other e keys os h k,
)

pub extended-IsBuilt :
    (c : Crypto) (key : CookieKey) (label : Bytes) (b : Building)
    → IsBuilt b
    → All (λ o. Apart o (key_entry c key)) b.by_use_after
    → IsBuilt (extended c key label b)
extended-IsBuilt c key label b v apart = record {
  kids_known = λ kid. ground (
    arith,
    v.kids_known kid,
    lookup-insert (key_entry c key).kid kid label b.kid_labels,
    ==_iff (key_entry c key).kid kid,
    All-append_iff (λ o. o.kid ≢ kid) b.by_use_after (key_entry c key ∷ []),
  );
  dates_known = λ t. ground (
    arith,
    v.dates_known t,
    lookup-insert (instant key.use_after) (instant t) label b.use_after_labels,
    ==_iff (instant key.use_after) (instant t),
    instant_injective key.use_after t,
    All-append_iff (λ o. o.use_after ≢ t) b.by_use_after (key_entry c key ∷ []),
  );
  keys_hold =
      All-append _ b.by_use_after (key_entry c key ∷ [])
        (insert_other (key_entry c key) b.keys b.by_use_after apart v.keys_hold)
        (insert_self (key_entry c key) b.keys, tt);
  keys_listed = λ kid e h. ground (
    arith,
    v.keys_listed kid e,
    lookup-insert (key_entry c key).kid kid (key_entry c key) b.keys,
    ==_iff (key_entry c key).kid kid,
    In-append_left e b.by_use_after (key_entry c key ∷ []),
    In-append_right e b.by_use_after (key_entry c key ∷ []),
  );
  apart = AllPairs-concat Apart b.by_use_after (key_entry c key) v.apart apart;
}

take-IsBytes : (n : ℕ) (xs : Bytes) → IsBytes xs → IsBytes (take n xs)
take-IsBytes zero xs h = tt
take-IsBytes (suc n) [] h = tt
take-IsBytes (suc n) (x ∷ xs) (p, h) = (p, take-IsBytes n xs h)

pub cookie_key_id-full :
    (c : Crypto) (secret : Bytes)
    → IsHash c
    → (length (cookie_key_id c secret) ≡ cookie_key_id_length) × IsBytes (cookie_key_id c secret)
unfolding cookie_key_id
cookie_key_id-full c secret v = (
  omega (
    arith,
    length-take cookie_key_id_length (c.sha256 (cookie_key_id_label ++ secret)),
    v.length-sha256 (cookie_key_id_label ++ secret),
  ),
  take-IsBytes cookie_key_id_length _ (v.sha256-IsBytes (cookie_key_id_label ++ secret)),
)
