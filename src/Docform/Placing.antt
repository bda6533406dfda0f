-- ===== src/Docform/Placing.antt =====
-- Where the replacement of a component's blocks is put.
use howdah.Base.{
  ℕ, suc, List, [], ◌∷◌, ◌++◌, ◌≡◌, ◌+◌, ◌-◌, refl, Bool, true, false, none, some, nat_eq,
  if◌then◌else◌, length, Bool-cases, inl, inr, ◌⊎◌, arith, All, ap, sym, ◌∙◌, take-append_length,
  drop-append_length, length-append,
}
use howdah.Docform.{first_index, adjusted_index, clamped, placed, replace_blocks, drop_blocks}

module _ {Block : Type 0} (matches : Block → Bool) where
  -- The specification: the blocks before the first match stay, the replacement stands in the place
  -- of that match, and of the rest those stay that do not match. Where none matches, the
  -- replacement comes last.
  unfoldable pub replaced : List Block → List Block → List Block
  replaced [] replacement = replacement
  replaced (b ∷ bs) replacement =
      let rest = replaced bs replacement in
      if matches b then replacement ++ drop_blocks bs matches else b ∷ rest

  first_index-found : (i f : ℕ) (bs : List Block) → first_index matches i bs (some f) ≡ some f
  unfolding first_index
  first_index-found i f [] = refl
  first_index-found i f (b ∷ bs) = first_index-found (suc i) f bs

  first_match :
      (i : ℕ) (bs : List Block)
      → (first_index matches i bs none ≡ none) × All (λ o. matches o ≡ false) bs
        ⊎ ((before : List Block) × (b : Block) × (after : List Block) × All
              (λ o. matches o ≡ false)
              before
            × (matches b ≡ true)
            × (bs ≡ before ++ b ∷ after)
            × (first_index matches i bs none ≡ some (i + length before)))
  unfolding first_index
  first_match i [] = inl (refl, tt)
  first_match i (b ∷ bs) = elim (Bool-cases (matches b)) [
    | inl hit ↦
        let here : i ≡ i + 0 = omega arith in
        inr ([], b, bs, tt, hit, refl, rw hit (first_index-found (suc i) i bs ∙ ap some here))
    | inr miss ↦ elim (first_match (suc i) bs) [
      | inl (none_first, kept) ↦ inl (rw miss none_first, (miss, kept))
      | inr (before, c, after, apart, hit, shape, found) ↦
          let there : suc i + length before ≡ i + suc (length before) = omega arith in
          inr (
            b ∷ before,
            c,
            after,
            (miss, apart),
            hit,
            ap (λ t. b ∷ t) shape,
            rw miss (found ∙ ap some there),
          )
    ]
  ]

  module _ (b : Block) (after : List Block) where
    adjusted_index-first :
        (i removed : ℕ) (before : List Block)
        → All (λ o. matches o ≡ false) before
        → adjusted_index matches (i + length before) i removed (before ++ b ∷ after)
          ≡ (i + length before) - removed
    unfolding adjusted_index
    adjusted_index-first i removed [] h = ground arith
    adjusted_index-first i removed (c ∷ before) h =
        let there : suc i + length before ≡ i + suc (length before) = omega arith in
        let rest = adjusted_index-first (suc i) removed before h.1 in
        ground (arith, there, rest, h.0)

    drop_blocks-first :
        (before : List Block)
        → All (λ o. matches o ≡ false) before
        → matches b ≡ true
        → drop_blocks (before ++ b ∷ after) matches ≡ before ++ drop_blocks after matches
    drop_blocks-first [] h hit = rw hit refl
    drop_blocks-first (c ∷ before) (miss, h) hit =
        rw miss (ap (λ t. c ∷ t) (drop_blocks-first before h hit))

    replaced-first :
        (before replacement : List Block)
        → All (λ o. matches o ≡ false) before
        → matches b ≡ true
        → replaced (before ++ b ∷ after) replacement
          ≡ before ++ (replacement ++ drop_blocks after matches)
    unfolding replaced
    replaced-first [] replacement h hit = rw hit refl
    replaced-first (c ∷ before) replacement (miss, h) hit =
        rw miss (ap (λ t. c ∷ t) (replaced-first before replacement h hit))

  replaced-nothing : (bs : List Block) → replaced bs [] ≡ drop_blocks bs matches
  unfolding replaced
  replaced-nothing [] = refl
  replaced-nothing (b ∷ bs) = elim (Bool-cases (matches b)) [
    | inl hit ↦ rw hit refl
    | inr miss ↦ rw miss (ap (λ t. b ∷ t) (replaced-nothing bs))
  ]

  drop_blocks-apart :
      (bs : List Block) → All (λ o. matches o ≡ false) bs → drop_blocks bs matches ≡ bs
  drop_blocks-apart [] h = refl
  drop_blocks-apart (b ∷ bs) (miss, h) = rw miss (ap (λ t. b ∷ t) (drop_blocks-apart bs h))

  replaced-apart :
      (bs replacement : List Block)
      → All (λ o. matches o ≡ false) bs
      → replaced bs replacement ≡ bs ++ replacement
  unfolding replaced
  replaced-apart [] replacement h = refl
  replaced-apart (b ∷ bs) replacement (miss, h) =
      rw miss (ap (λ t. b ∷ t) (replaced-apart bs replacement h))

  placed-first :
      (before : List Block) (b : Block) (after replacement : List Block)
      → All (λ o. matches o ≡ false) before
      → matches b ≡ true
      → placed matches (before ++ b ∷ after) replacement (some (0 + length before))
        ≡ replaced (before ++ b ∷ after) replacement
  placed-first before b after replacement apart hit =
      let rest = drop_blocks after matches in
      let at : clamped (length (before ++ rest))
            (adjusted_index matches (0 + length before) 0 0 (before ++ b ∷ after))
          ≡ length before =
        ground (arith, adjusted_index-first b after 0 0 before apart, length-append before rest) in
      rw
        (
          drop_blocks-first b after before apart hit,
          at,
          replaced-first b after before replacement apart hit,
          take-append_length before rest,
          drop-append_length before rest,
        )
        refl

  -- Replacing blocks by the index of the first match, counted and adjusted as the code does it, puts
  -- the replacement in the place of the first match, or last where none matches, and keeps every
  -- block that does not match in its order.
  pub replace_blocks-replaced :
      (bs replacement : List Block)
      → replace_blocks bs matches replacement ≡ replaced bs replacement
  unfolding replace_blocks
  replace_blocks-replaced bs [] = sym (replaced-nothing bs)
  replace_blocks-replaced bs (r ∷ rs) = elim (first_match 0 bs) [
    | inl (none_first, apart) ↦
        rw (none_first, drop_blocks-apart bs apart) (sym (replaced-apart bs (r ∷ rs) apart))
    | inr (before, b, after, apart, hit, shape, found) ↦
        rw (found, shape) (placed-first before b after (r ∷ rs) apart hit)
  ]
