-- ===== src/Docform/Applying.antt =====
-- What a form leaves of the document it is applied to.
use howdah.Base.{
  List, [], ◌∷◌, ◌++◌, ◌≡◌, refl, Bool, true, Bool-cases, inl, inr, arith, ap, ◌∙◌, All,
}
use howdah.Base.Bytes.{Bytes}
use howdah.Docform.{
  BlockTarget, target_meta, target_links, Values, Document, Component, all_blocks, drop_blocks,
  replace_blocks, blocks_for_target, with_target, apply_component, apply_with, apply_all,
  parse_values, parsed_for,
}
use howdah.Docform.Placing.{replaced, replace_blocks-replaced}

module _ {Block : Type 0} where
  drop_blocks-append :
      (xs ys : List Block) (p : Block → Bool)
      → drop_blocks (xs ++ ys) p ≡ drop_blocks xs p ++ drop_blocks ys p
  drop_blocks-append [] ys p = refl
  drop_blocks-append (x ∷ xs) ys p = elim (Bool-cases (p x)) [
    | inl hit ↦ rw hit (drop_blocks-append xs ys p)
    | inr miss ↦ rw miss (ap (λ t. x ∷ t) (drop_blocks-append xs ys p))
  ]

  drop_blocks-All :
      (xs : List Block) (p : Block → Bool) → All (λ b. p b ≡ true) xs → drop_blocks xs p ≡ []
  drop_blocks-All [] p h = refl
  drop_blocks-All (x ∷ xs) p (hit, h) = rw hit (drop_blocks-All xs p h)

  module _ (m p : Block → Bool) (wider : (b : Block) → m b ≡ true → p b ≡ true) where
    drop_blocks-drop_blocks :
        (bs : List Block) → drop_blocks (drop_blocks bs m) p ≡ drop_blocks bs p
    drop_blocks-drop_blocks [] = refl
    drop_blocks-drop_blocks (b ∷ bs) =
        ground (arith, Bool-cases (m b), Bool-cases (p b), wider b, drop_blocks-drop_blocks bs)

    -- Replacing the blocks that `m` selects by blocks that `p` selects too leaves the others.
    drop_blocks-replaced :
        (bs replacement : List Block)
        → All (λ b. p b ≡ true) replacement
        → drop_blocks (replaced m bs replacement) p ≡ drop_blocks bs p
    unfolding replaced
    drop_blocks-replaced [] replacement h = drop_blocks-All replacement p h
    drop_blocks-replaced (b ∷ bs) replacement h = elim (Bool-cases (m b)) [
      | inl hit ↦
          rw
            (
              hit,
              wider b hit,
              drop_blocks-append replacement (drop_blocks bs m) p,
              drop_blocks-All replacement p h,
            )
            (drop_blocks-drop_blocks bs)
      | inr miss ↦ ground (arith, miss, drop_blocks-replaced bs replacement h, Bool-cases (p b))
    ]

module _ {Block : Type 0} (p : BlockTarget → Block → Bool) where
  with_target-others :
      (doc : Document Block) (t target : BlockTarget) (blocks : List Block)
      → drop_blocks blocks (p t) ≡ drop_blocks (blocks_for_target doc t) (p t)
      → drop_blocks (blocks_for_target (with_target doc t blocks) target) (p target)
        ≡ drop_blocks (blocks_for_target doc target) (p target)
  with_target-others doc target_meta target_meta blocks h = h
  with_target-others doc target_meta target_links blocks h = refl
  with_target-others doc target_links target_meta blocks h = refl
  with_target-others doc target_links target_links blocks h = h

module _ {Block Data : Type 0} (p : BlockTarget → Block → Bool) where
  -- The component matches, and puts in, only blocks that `p` allows in its part of the document.
  pub record Manages (c : Component Block Data) : Type 0 where
    pub matched : (b : Block) → c.matcher b ≡ true → p c.target b ≡ true
    pub applied :
        (original : List Block) (values : Values)
        → All (λ b. p c.target b ≡ true) (c.apply original values)

  apply_component-others :
      (doc : Document Block) (c : Component Block Data) (values : Values) (target : BlockTarget)
      → Manages c
      → drop_blocks (blocks_for_target (apply_component doc c values) target) (p target)
        ≡ drop_blocks (blocks_for_target doc target) (p target)
  unfolding apply_component
  apply_component-others doc c values target m =
      let blocks = blocks_for_target doc c.target in
      let replacement = c.apply (all_blocks blocks c.matcher) values in
      with_target-others p doc c.target target (replace_blocks blocks c.matcher replacement) (
        rw (replace_blocks-replaced c.matcher blocks replacement) (
          drop_blocks-replaced c.matcher (p c.target) m.matched blocks replacement
            (m.applied (all_blocks blocks c.matcher) values)))

  apply_with-others :
      (components : List (Component Block Data)) (parsed : List (Bytes × Values))
      (doc : Document Block) (target : BlockTarget)
      → All Manages components
      → drop_blocks (blocks_for_target (apply_with components parsed doc) target) (p target)
        ≡ drop_blocks (blocks_for_target doc target) (p target)
  unfolding apply_with
  apply_with-others [] parsed doc target h = refl
  apply_with-others (c ∷ components) parsed doc target (m, h) =
      apply_with-others components parsed (apply_component doc c (parsed_for parsed c.name)) target
        h
      ∙ apply_component-others doc c (parsed_for parsed c.name) target m

  -- Where every component of a form matches, and puts in, only blocks that `p` allows in its part of
  -- the document, applying the form leaves all other blocks, in their order, in both parts.
  pub apply_all-others :
      (components : List (Component Block Data)) (doc : Document Block) (values : Values)
      (target : BlockTarget)
      → All Manages components
      → drop_blocks (blocks_for_target (apply_all components doc values) target) (p target)
        ≡ drop_blocks (blocks_for_target doc target) (p target)
  unfolding apply_all
  apply_all-others components doc values target h =
      apply_with-others components (parse_values components values) doc target h
