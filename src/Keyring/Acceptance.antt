-- ===== src/Keyring/Acceptance.antt =====
-- What `newCookieKeyring` accepts, and what it builds.
use howdah.Base.{
  length, List, [], ◌∷◌, ◌++◌, ◌≡◌, refl, ◌≢◌, ◌≤◌, ◌↔◌, some, arith, All, All-map, AllPairs,
  AllPairs-middle, In, subst, ◌∙◌, inl, inr, Option-cases, map, append_assoc, append-nil, nat_eq,
}
use howdah.Base.Bytes.{IsBytes, Bytes, bytes_eq}
use howdah.Base.Int.{int_eq}
use howdah.Base.Dict.{lookup}
use howdah.Clock.{Time}
use howdah.Crypto.{Crypto, IsHash}
use howdah.Errors.{ok, >>=-eq-ok}
use howdah.Keyring.Sorting.{Descending, sort_latest-Descending, sort_latest-All, sort_latest-In}
use howdah.Keyring.{sort_latest}
use howdah.Keyring.Selection.{sealing_key-IsSealingKey, eligible_found}
use howdah.Keyring.{
  cookie_key_id_length, CookieKey, KeyEntry, CookieKeyring, instant_eq, Building, building,
  key_entry, add_key, add_keys, new_cookie_keyring, Selected, sealing_key, add_keys, sorted, choose,
}
use howdah.Keyring.Construction.{
  cookie_key_id-full, IsValidKey, Apart, IsBuilt, building-IsBuilt, extended, extended-IsBuilt,
  add_key_accepts, add_key_only,
}

-- A list of keys that makes a keyring.
abbrev pub IsAcceptable : Crypto → List (CookieKey × Bytes) → Type 0
IsAcceptable c keys =
    All (λ k. IsValidKey c k.0) keys × AllPairs Apart (map (λ k. key_entry c k.0) keys)

abbrev entries : Crypto → List (CookieKey × Bytes) → List KeyEntry
entries c = map (λ k. key_entry c k.0)

add_keys_accepts :
    (c : Crypto) (keys : List (CookieKey × Bytes)) (b : Building)
    → IsBuilt b
    → All (λ k. IsValidKey c k.0) keys
    → AllPairs Apart (b.by_use_after ++ entries c keys)
    → (b' : Building) × (add_keys c keys b ≡ ok b')
unfolding add_keys
add_keys_accepts c [] b v valid apart = (b, refl)
add_keys_accepts c ((key, label) ∷ keys) b v (valid, rest) apart =
    let fresh = AllPairs-middle Apart b.by_use_after (key_entry c key) (entries c keys) apart in
    let (b', e) =
      add_keys_accepts c keys (extended c key label b) (extended-IsBuilt c key label b v fresh) rest
        (rw append_assoc apart) in
    (b', rw (add_key_accepts c key label b v valid fresh) e)

add_keys_only :
    (c : Crypto) (keys : List (CookieKey × Bytes)) (b b' : Building)
    → IsBuilt b
    → add_keys c keys b ≡ ok b'
    → All (λ k. IsValidKey c k.0) keys
      × IsBuilt b'
      × (b'.by_use_after ≡ b.by_use_after ++ entries c keys)
unfolding add_keys
add_keys_only c [] b b' v h =
    let same : b ≡ b' = ground arith in
    (tt, subst IsBuilt same v, ground (arith, append-nil b.by_use_after))
add_keys_only c ((key, label) ∷ keys) b b' v h =
    let (next, added, later) = >>=-eq-ok (add_key c key label b) (add_keys c keys) h in
    let (valid, apart, e) = add_key_only c key label b next v added in
    let (rest, built, listed) =
      add_keys_only c keys (extended c key label b) b' (extended-IsBuilt c key label b v apart)
        (rw (← e) later) in
    (
      (valid, rest),
      built,
      listed ∙ append_assoc b.by_use_after (key_entry c key ∷ []) (entries c keys),
    )

-- What the readers and writers of the keyring rely on.
pub record IsWellFormed (k : CookieKeyring) : Type 0 where
  pub descending : Descending k.by_use_after
  pub keys_hold : All (λ o. lookup o.kid k.keys ≡ some o) k.by_use_after
  pub keys_listed :
      (kid : Bytes) (e : KeyEntry)
      → lookup kid k.keys ≡ some e
      → (e.kid ≡ kid) × In e k.by_use_after

AllPairs-dates :
    (es : List KeyEntry) → AllPairs Apart es → AllPairs (λ a b. a.use_after ≢ b.use_after) es
AllPairs-dates [] h = tt
AllPairs-dates (e ∷ es) (p, h) = (All-map (λ o q. q.dates) es p, AllPairs-dates es h)

sorted-IsWellFormed : (b : Building) → IsBuilt b → IsWellFormed (sorted b)
sorted-IsWellFormed b v = record {
  descending = sort_latest-Descending b.by_use_after (AllPairs-dates b.by_use_after v.apart);
  keys_hold = sort_latest-All _ b.by_use_after v.keys_hold;
  keys_listed = λ kid e h.
      let (same, listed) = v.keys_listed kid e h in
      (same, (sort_latest-In e b.by_use_after).1 listed);
}

module _ (c : Crypto) (keys : List (CookieKey × Bytes)) (now : Time) where
  -- Some key may seal already.
  pub record HasEligible : Type 0 where
    pub entry : KeyEntry
    pub listed : In entry (map (λ k. key_entry c k.0) keys)
    pub passed : entry.use_after ≤ now

new_cookie_keyring_parts :
    (c : Crypto) (keys : List (CookieKey × Bytes)) (now : Time) (k : CookieKeyring) (log : Selected)
    → new_cookie_keyring c keys now ≡ ok (k, log)
    → (b : Building) × (add_keys c keys building ≡ ok b)
      × (choose (sorted b) now ≡ ok (k, log))
      × (keys ≢ [])
unfolding new_cookie_keyring
new_cookie_keyring_parts c [] now k log h = cc
new_cookie_keyring_parts c (key ∷ keys) now k log h =
    let (b, built, chosen) =
      >>=-eq-ok (add_keys c (key ∷ keys) building) (λ b. choose (sorted b) now) h in
    (b, built, chosen, λ e. cc)

choose_only :
    (k k' : CookieKeyring) (now : Time) (log : Selected)
    → choose k now ≡ ok (k', log)
    → (k ≡ k')
      × ((e : KeyEntry) × (sealing_key (some k) now ≡ some e)
          × (log.kid ≡ e.kid)
          × (log.use_after ≡ e.use_after))
unfolding choose
choose_only k k' now log h = elim (Option-cases (sealing_key (some k) now)) [
  | inl missing ↦ absurd (ground (arith, missing))
  | inr (e, found) ↦
      (ground (arith, found), (e, found, ground (arith, found), ground (arith, found)))
]

-- A keyring that is built is well formed: its keys are in strictly descending order of use-after,
-- and its map holds exactly them; and it has a sealing key from the start, which is the one logged.
pub new_cookie_keyring-IsWellFormed :
    (c : Crypto) (keys : List (CookieKey × Bytes)) (now : Time) (k : CookieKeyring) (log : Selected)
    → new_cookie_keyring c keys now ≡ ok (k, log)
    → IsWellFormed k
      × ((e : KeyEntry) × (sealing_key (some k) now ≡ some e)
          × (log.kid ≡ e.kid)
          × (log.use_after ≡ e.use_after))
new_cookie_keyring-IsWellFormed c keys now k log h =
    let (b, built, chosen, _) = new_cookie_keyring_parts c keys now k log h in
    let (_, v, _) = add_keys_only c keys building b building-IsBuilt built in
    let (same, first) = choose_only (sorted b) k now log chosen in
    (subst IsWellFormed same (sorted-IsWellFormed b v), rw (← same) first)

choose_found :
    (k : CookieKeyring) (now : Time) (e : KeyEntry)
    → sealing_key (some k) now ≡ some e
    → (log : Selected) × (choose k now ≡ ok (k, log))
unfolding choose
choose_found k now e h = rw (h, choose) (_, refl)

accepted :
    (c : Crypto) (keys : List (CookieKey × Bytes)) (now : Time)
    → (keys ≢ []) × IsAcceptable c keys × HasEligible c keys now
    → (r : CookieKeyring × Selected) × (new_cookie_keyring c keys now ≡ ok r)
unfolding new_cookie_keyring sealing_key
accepted c [] now (some_key, _, _) = absurd (some_key refl)
accepted c (key ∷ keys) now (_, (valid, apart), may) =
    let (b, built) = add_keys_accepts c (key ∷ keys) building building-IsBuilt valid apart in
    let (_, v, listed) = add_keys_only c (key ∷ keys) building b building-IsBuilt built in
    let (e, found) =
      eligible_found (sort_latest b.by_use_after) now may.entry
        ((sort_latest-In may.entry b.by_use_after).1 (rw listed may.listed)) may.passed in
    let (log, chosen) = choose_found (sorted b) now e found in ((sorted b, log), rw built chosen)

required :
    (c : Crypto) (keys : List (CookieKey × Bytes)) (now : Time) (k : CookieKeyring) (log : Selected)
    → new_cookie_keyring c keys now ≡ ok (k, log)
    → (keys ≢ []) × IsAcceptable c keys × HasEligible c keys now
required c keys now k log h =
    let (b, built, chosen, some_key) = new_cookie_keyring_parts c keys now k log h in
    let (valid, v, listed) = add_keys_only c keys building b building-IsBuilt built in
    let (same, (e, found, _, _)) = choose_only (sorted b) k now log chosen in
    let seals =
      sealing_key-IsSealingKey (sorted b) now e (sorted-IsWellFormed b v).descending found in
    (
      some_key,
      (valid, rw (← listed) v.apart),
      record {
        entry = e;
        listed = subst (In e) listed ((sort_latest-In e b.by_use_after).0 seals.listed);
        passed = seals.passed;
      },
    )

-- The keys make a keyring exactly when there is at least one, every secret is 32 bytes and makes a
-- cipher, no two have the same key id or the same use-after, and one may seal already.
pub new_cookie_keyring_iff :
    (c : Crypto) (keys : List (CookieKey × Bytes)) (now : Time)
    → ((r : CookieKeyring × Selected) × (new_cookie_keyring c keys now ≡ ok r))
      ↔ ((keys ≢ []) × IsAcceptable c keys × HasEligible c keys now)
new_cookie_keyring_iff c keys now = (λ (r, h). required c keys now r.0 r.1 h, accepted c keys now)

kids_of :
    (c : Crypto) (keys : List (CookieKey × Bytes))
    → IsHash c
    → All (λ e. (length e.kid ≡ cookie_key_id_length) × IsBytes e.kid) (entries c keys)
kids_of c [] v = tt
kids_of c ((key, label) ∷ keys) v = (cookie_key_id-full c key.secret v, kids_of c keys v)

new_cookie_keyring-kids :
    (c : Crypto) (keys : List (CookieKey × Bytes)) (now : Time) (k : CookieKeyring) (log : Selected)
    → IsHash c
    → new_cookie_keyring c keys now ≡ ok (k, log)
    → All (λ e. (length e.kid ≡ cookie_key_id_length) × IsBytes e.kid) k.by_use_after
new_cookie_keyring-kids c keys now k log v h =
    let (b, built, chosen, _) = new_cookie_keyring_parts c keys now k log h in
    let (_, _, listed) = add_keys_only c keys building b building-IsBuilt built in
    let (same, _) = choose_only (sorted b) k now log chosen in
    subst
      (λ (k' : CookieKeyring).
        All (λ e. (length e.kid ≡ cookie_key_id_length) × IsBytes e.kid) k'.by_use_after)
      same (sort_latest-All _ b.by_use_after (rw listed (kids_of c keys v)))

-- A keyring that was built over a hash of 32 bytes.
pub record IsKeyring (k : CookieKeyring) : Type 0 where
  pub well_formed : IsWellFormed k
  pub kids : All (λ e. (length e.kid ≡ cookie_key_id_length) × IsBytes e.kid) k.by_use_after

pub new_cookie_keyring-IsKeyring :
    (c : Crypto) (keys : List (CookieKey × Bytes)) (now : Time) (k : CookieKeyring) (log : Selected)
    → IsHash c
    → new_cookie_keyring c keys now ≡ ok (k, log)
    → IsKeyring k
new_cookie_keyring-IsKeyring c keys now k log v h = record {
  well_formed = (new_cookie_keyring-IsWellFormed c keys now k log h).0;
  kids = new_cookie_keyring-kids c keys now k log v h;
}
