-- ===== src/Docform.antt =====
-- docform: the form whose components each manage some blocks of a document. `newsdoc`'s blocks, its
-- matchers and its AllBlocks and DropBlocks are a library's: a block is a parameter type, a matcher
-- the Boolean test it makes, and the two functions keep the blocks that match and those that do not.
pub mod Placing
pub mod Prefixes
pub mod Applying
use howdah.Base.{
  ℕ, suc, zero, List, [], ◌∷◌, ◌++◌, Bool, true, false, not, Option, none, some, ◌==◌, nat_eq,
  if◌then◌else◌, take, drop, length, ltb, ◌-◌, map,
}
use howdah.Base.Bytes.{Bytes, bytes, bytes_eq}
use howdah.Base.Dict.{lookup, insert}

-- The two constants; what Go does with any other integer is not modelled.
pub data BlockTarget : Type 0 where
  target_meta target_links : BlockTarget

pub record FieldError : Type 0 where
  pub field : Bytes
  pub message : Bytes

-- url.Values: the values of each key.
abbrev pub Values : Type 0
Values = List (Bytes × List Bytes)

module _ (Block : Type 0) where
  abbrev pub BlockMatcher : Type 0
  BlockMatcher = Block → Bool

  -- The parts of a document that a component may manage.
  pub record Document : Type 0 where
    pub meta : List Block
    pub links : List Block

  -- `Data` is what templates are given.
  pub record Component (Data : Type 0) : Type 0 where
    pub name : Bytes
    pub template_name : Bytes
    pub target : BlockTarget
    pub matcher : Block → Bool
    pub extract : List Block → Data
    pub validate : Values → List FieldError
    pub apply : List Block → Values → List Block

  pub record ComponentBlock (Data : Type 0) : Type 0 where
    pub template : Bytes
    pub data_value : Data

abbrev pub clamped : ℕ → ℕ → ℕ
clamped limit i = if ltb limit i then limit else i

module _ {Block : Type 0} where
  -- newsdoc.AllBlocks and newsdoc.DropBlocks
  abbrev pub all_blocks : List Block → (Block → Bool) → List Block
  all_blocks [] matches = []
  all_blocks (b ∷ bs) matches =
      let rest = all_blocks bs matches in if matches b then b ∷ rest else rest

  abbrev pub drop_blocks : List Block → (Block → Bool) → List Block
  drop_blocks [] matches = []
  drop_blocks (b ∷ bs) matches =
      let rest = drop_blocks bs matches in if matches b then rest else b ∷ rest

  -- The first loop of `replaceBlocks`, with its index; -1 is none.
  unfoldable pub first_index : (Block → Bool) → ℕ → List Block → Option ℕ → Option ℕ
  first_index matches i [] first = first
  first_index matches i (b ∷ bs) first =
      first_index matches (suc i) bs
        (elim first [ none ↦ if matches b then some i else none | some f ↦ some f ])

  -- The second loop, which stops at the first match.
  unfoldable pub adjusted_index : (Block → Bool) → ℕ → ℕ → ℕ → List Block → ℕ
  adjusted_index matches first i removed [] = 0
  adjusted_index matches first i removed (b ∷ bs) =
      let rest =
        adjusted_index matches first (suc i) (if matches b then suc removed else removed) bs in
      if i == first then i - removed else rest

  abbrev pub placed : (Block → Bool) → List Block → List Block → Option ℕ → List Block
  placed matches blocks replacement none = drop_blocks blocks matches ++ replacement
  placed matches blocks replacement (some first) =
      let filtered = drop_blocks blocks matches in
      let at = clamped (length filtered) (adjusted_index matches first 0 0 blocks) in
      take at filtered ++ (replacement ++ drop at filtered)

  unfoldable pub replace_blocks : List Block → (Block → Bool) → List Block → List Block
  unfolding first_index adjusted_index
  replace_blocks blocks matches [] = drop_blocks blocks matches
  replace_blocks blocks matches (r ∷ replacement) =
      placed matches blocks (r ∷ replacement) (first_index matches 0 blocks none)

-- `strings.CutPrefix`
unfoldable pub cut_prefix : Bytes → Bytes → Option Bytes
cut_prefix s [] = some s
cut_prefix [] (p ∷ ps) = none
cut_prefix (c ∷ s) (p ∷ ps) = if c == p then cut_prefix s ps else none

abbrev pub stripped_from : Option Bytes → List Bytes → Values → Values
stripped_from none vals result = result
stripped_from (some after) vals result = insert after vals result

-- The keys of a map are distinct, so the order in which the loop takes them does not matter.
unfoldable pub strip_prefix : Bytes → Values → Values
unfolding cut_prefix insert
strip_prefix prefix [] = []
strip_prefix prefix ((key, vals) ∷ values) =
    stripped_from (cut_prefix key (prefix ++ bytes ".")) vals (strip_prefix prefix values)

-- A map's missing key gives the nil map.
abbrev pub or_nil : Option Values → Values
or_nil none = []
or_nil (some values) = values

abbrev pub parsed_for : List (Bytes × Values) → Bytes → Values
parsed_for parsed name = or_nil (lookup name parsed)

module _ {Block : Type 0} where
  abbrev pub blocks_for_target : Document Block → BlockTarget → List Block
  blocks_for_target doc target_meta = doc.meta
  blocks_for_target doc target_links = doc.links

  abbrev pub with_target : Document Block → BlockTarget → List Block → Document Block
  with_target doc target_meta blocks = record doc { meta = blocks }
  with_target doc target_links blocks = record doc { links = blocks }

module _ {Block Data : Type 0} where
  -- A form is the list of its components. What is stored under a name depends on the name alone.
  unfoldable pub parse_values : List (Component Block Data) → Values → List (Bytes × Values)
  unfolding strip_prefix insert
  parse_values [] values = []
  parse_values (c ∷ components) values =
      insert c.name (strip_prefix c.name values) (parse_values components values)

  unfoldable pub extract_all :
      List (Component Block Data) → Document Block → List (ComponentBlock Block Data)
  extract_all [] doc = []
  extract_all (c ∷ components) doc =
      record {
        template = c.template_name;
        data_value = c.extract (all_blocks (blocks_for_target doc c.target) c.matcher);
      }
      ∷ extract_all components doc

  -- A nil map is the empty one.
  abbrev pub validate_with :
      List (Component Block Data)
      → List (Bytes × Values)
      → List (Bytes × List FieldError)
      → List (Bytes × List FieldError)
  validate_with [] parsed result = result
  validate_with (c ∷ components) parsed result =
      validate_with components parsed (elim (c.validate (parsed_for parsed c.name)) [
        | [] ↦ result
        | e ∷ errs ↦ insert c.name (e ∷ errs) result
      ])

  unfoldable pub validate_all :
      List (Component Block Data) → Values → List (Bytes × List FieldError)
  unfolding parse_values
  validate_all components values = validate_with components (parse_values components values) []

  -- One round of the loop of `ApplyAll`.
  unfoldable pub apply_component : Document Block → Component Block Data → Values → Document Block
  unfolding replace_blocks
  apply_component doc c values =
      let blocks = blocks_for_target doc c.target in
      with_target doc c.target
        (replace_blocks blocks c.matcher (c.apply (all_blocks blocks c.matcher) values))

  unfoldable pub apply_with :
      List (Component Block Data) → List (Bytes × Values) → Document Block → Document Block
  unfolding apply_component
  apply_with [] parsed doc = doc
  apply_with (c ∷ components) parsed doc =
      apply_with components parsed (apply_component doc c (parsed_for parsed c.name))

  unfoldable pub apply_all : List (Component Block Data) → Document Block → Values → Document Block
  unfolding apply_with parse_values
  apply_all components doc values = apply_with components (parse_values components values) doc
