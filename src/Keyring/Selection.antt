-- ===== src/Keyring/Selection.antt =====
-- The choice of `sealingKey`, stated without the order of the list, and as time passes.
use howdah.Base.{
  List, [], ◌∷◌, ◌≡◌, refl, ◌<◌, ◌≤◌, none, some, arith, All, All-map, All-In, In, inl, inr, ◌↔◌,
  Bool-cases, Option-cases, sym, ltb,
}
use howdah.Clock.{Time}
use howdah.Keyring.{KeyEntry, CookieKeyring, eligible, sealing_key}
use howdah.Keyring.Sorting.{Descending}

-- The key to seal with, stated without the order of the list.
pub record IsSealingKey (keys : List KeyEntry) (now : Time) (e : KeyEntry) : Type 0 where
  pub listed : In e keys
  pub passed : e.use_after ≤ now
  pub latest : All (λ o. o.use_after ≤ now → o.use_after ≤ e.use_after) keys

pub eligible-IsSealingKey :
    (es : List KeyEntry) (now : Time) (e : KeyEntry)
    → Descending es
    → eligible es now ≡ some e
    → IsSealingKey es now e
unfolding eligible
eligible-IsSealingKey [] now e d h = cc
eligible-IsSealingKey (x ∷ es) now e (l, d) h = elim (Bool-cases (ltb now x.use_after)) [
  | inl future ↦
      let rest = eligible-IsSealingKey es now e d (ground arith) in
      record {
        listed = inr rest.listed;
        passed = rest.passed;
        latest = (ground arith, rest.latest);
      }
  | inr passed ↦
      let same : x ≡ e = ground arith in
      record {
        listed = inl (sym same);
        passed = ground arith;
        latest = (ground arith, All-map (λ o p _. ground arith) es l);
      }
]

-- In a keyring whose keys are in descending order of use-after, the sealing key in force at an
-- instant is that of the keys whose use-after has passed whose use-after is the latest.
pub sealing_key-IsSealingKey :
    (k : CookieKeyring) (now : Time) (e : KeyEntry)
    → Descending k.by_use_after
    → sealing_key (some k) now ≡ some e
    → IsSealingKey k.by_use_after now e
unfolding sealing_key
sealing_key-IsSealingKey k now e d h = eligible-IsSealingKey k.by_use_after now e d h

pub eligible-none_iff :
    (es : List KeyEntry) (now : Time) → (eligible es now ≡ none) ↔ All (λ o. now < o.use_after) es
unfolding eligible
eligible-none_iff [] now = (λ _. tt, λ _. refl)
eligible-none_iff (x ∷ es) now = ground (arith, eligible-none_iff es now)

pub eligible_found :
    (es : List KeyEntry) (now : Time) (o : KeyEntry)
    → In o es
    → o.use_after ≤ now
    → (e : KeyEntry) × (eligible es now ≡ some e)
eligible_found es now o i h = elim (Option-cases (eligible es now)) [
  | inl missed ↦ absurd (omega (arith, All-In _ o es ((eligible-none_iff es now).0 missed) i))
  | inr found ↦ found
]

-- As time passes a keyring whose keys are in descending order of use-after never loses its sealing
-- key, and the key only moves to a later one.
pub sealing_key_monotone :
    (k : CookieKeyring) (now later : Time) (e : KeyEntry)
    → Descending k.by_use_after
    → now ≤ later
    → sealing_key (some k) now ≡ some e
    → (f : KeyEntry) × (sealing_key (some k) later ≡ some f) × (e.use_after ≤ f.use_after)
unfolding sealing_key
sealing_key_monotone k now later e d le h =
    let old = eligible-IsSealingKey k.by_use_after now e d h in
    let (f, found) = eligible_found k.by_use_after later e old.listed (omega arith) in
    let new = eligible-IsSealingKey k.by_use_after later f d found in
    (f, found, All-In _ e k.by_use_after new.latest old.listed (omega arith))
