-- ===== src/Tests/Forms.antt =====
-- A form of one component over blocks that are numbers.
use howdah.Base.{ℕ, [], ◌∷◌, ◌≡◌, refl, arith, Bool, ltb}
use howdah.Base.Bytes.{bytes, bytes_eq}
use howdah.Docform.{
  BlockTarget, target_meta, Values, Document, Component, replace_blocks, first_index,
  adjusted_index, drop_blocks, blocks_for_target, apply_all,
}
use howdah.Docform.Placing.{replaced, replace_blocks-replaced}
use howdah.Docform.Applying.{Manages, apply_all-others}

abbrev small : ℕ → Bool
small b = ltb b 10

abbrev small_target : BlockTarget → ℕ → Bool
small_target target b = small b

abbrev numbers : Component ℕ ℕ
numbers = record {
  name = bytes "n";
  template_name = bytes "numbers";
  target = target_meta;
  matcher = small;
  extract = λ blocks. 0;
  validate = λ values. [];
  apply = λ original values. 7 ∷ [];
}

abbrev doc : Document ℕ
doc = record { meta = 50 ∷ 1 ∷ 60 ∷ 2 ∷ []; links = 3 ∷ [] }

in_place : replace_blocks doc.meta small (7 ∷ 8 ∷ []) ≡ 50 ∷ 7 ∷ 8 ∷ 60 ∷ []
unfolding replace_blocks first_index adjusted_index
in_place = refl

replace_blocks-replaced_example :
    replace_blocks doc.meta small (7 ∷ 8 ∷ []) ≡ replaced small doc.meta (7 ∷ 8 ∷ [])
replace_blocks-replaced_example = replace_blocks-replaced small doc.meta (7 ∷ 8 ∷ [])

abbrev submitted : Values
submitted = (bytes "n.x", bytes "5" ∷ []) ∷ (bytes "m.x", bytes "6" ∷ []) ∷ []

numbers-Manages : Manages small_target numbers
numbers-Manages = record { matched = λ b h. h; applied = λ original values. ground arith }

apply_all-others_example :
    drop_blocks (blocks_for_target (apply_all (numbers ∷ []) doc submitted) target_meta) small
    ≡ drop_blocks (blocks_for_target doc target_meta) small
apply_all-others_example =
    apply_all-others small_target (numbers ∷ []) doc submitted target_meta (numbers-Manages, tt)
