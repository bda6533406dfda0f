-- ===== src/Keyring/Sorting.antt =====
-- The order of a keyring's keys: latest use-after first.
use howdah.Base.{
  List, [], ◌∷◌, ◌≡◌, ◌≢◌, ◌<◌, arith, ltb, All, All-map, AllPairs, Bool-cases, inl, inr, In, ◌⊎◌,
  ◌↔◌,
}
use howdah.Keyring.{KeyEntry, insert_latest, sort_latest}

abbrev pub Later : KeyEntry → KeyEntry → Type 0
Later a b = b.use_after < a.use_after

abbrev pub Descending : List KeyEntry → Type 0
Descending = AllPairs Later

module _ (P : KeyEntry → Type 0) where
  insert_latest-All :
      (key : KeyEntry) (es : List KeyEntry) → P key → All P es → All P (insert_latest key es)
  unfolding insert_latest
  insert_latest-All key [] p h = (p, tt)
  insert_latest-All key (e ∷ es) p (q, h) = ground (arith, insert_latest-All key es p h)

  pub sort_latest-All : (es : List KeyEntry) → All P es → All P (sort_latest es)
  unfolding sort_latest
  sort_latest-All [] h = tt
  sort_latest-All (e ∷ es) (p, h) = insert_latest-All e (sort_latest es) p (sort_latest-All es h)

  insert_latest-All_iff :
      (key : KeyEntry) (es : List KeyEntry) → All P (insert_latest key es) → P key × All P es
  unfolding insert_latest
  insert_latest-All_iff key [] h = ground arith
  insert_latest-All_iff key (e ∷ es) h = ground (arith, insert_latest-All_iff key es)

  pub sort_latest-All_rev : (es : List KeyEntry) → All P (sort_latest es) → All P es
  unfolding sort_latest
  sort_latest-All_rev [] h = tt
  sort_latest-All_rev (e ∷ es) h =
      let (p, k) = insert_latest-All_iff e (sort_latest es) h in (p, sort_latest-All_rev es k)

insert_latest-Descending :
    (key : KeyEntry) (es : List KeyEntry)
    → All (λ e. key.use_after ≢ e.use_after) es
    → Descending es
    → Descending (insert_latest key es)
unfolding insert_latest
insert_latest-Descending key [] h d = (tt, tt)
insert_latest-Descending key (e ∷ es) (n, h) (l, d) =
    elim (Bool-cases (ltb key.use_after e.use_after)) [
      | inl lt ↦
          rw lt (
            insert_latest-All (Later e) key es (ground arith) l,
            insert_latest-Descending key es h d,
          )
      | inr ge ↦ rw ge ((ground arith, All-map (λ x p. ground arith) es l), (l, d))
    ]

-- Keys with distinct use-afters are sorted strictly.
pub sort_latest-Descending :
    (es : List KeyEntry)
    → AllPairs (λ a b. a.use_after ≢ b.use_after) es
    → Descending (sort_latest es)
unfolding sort_latest
sort_latest-Descending [] h = tt
sort_latest-Descending (e ∷ es) (n, h) =
    insert_latest-Descending e (sort_latest es) (sort_latest-All _ es n)
      (sort_latest-Descending es h)

insert_latest-In :
    (x key : KeyEntry) (es : List KeyEntry) → In x (insert_latest key es) ↔ ((x ≡ key) ⊎ In x es)
unfolding insert_latest
insert_latest-In x key [] = ground arith
insert_latest-In x key (e ∷ es) = ground (arith, insert_latest-In x key es)

-- Sorting keeps the elements.
pub sort_latest-In : (x : KeyEntry) (es : List KeyEntry) → In x (sort_latest es) ↔ In x es
unfolding sort_latest
sort_latest-In x [] = (λ h. h, λ h. h)
sort_latest-In x (e ∷ es) =
    ground (arith, insert_latest-In x e (sort_latest es), sort_latest-In x es)
