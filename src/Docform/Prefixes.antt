-- ===== src/Docform/Prefixes.antt =====
-- The values that a component is given: those under its name's prefix.
use howdah.Base.{
  List, [], ◌∷◌, ◌++◌, ◌≡◌, ◌≢◌, refl, some, ◌==◌, nat_eq, if◌then◌else◌, Bool-cases, Option-cases,
  inl, inr, arith, In, sym, ap, ◌∙◌, append_assoc, ==_iff,
}
use howdah.Base.Bytes.{Bytes, bytes, bytes_eq}
use howdah.Base.Dict.{lookup, insert, lookup-insert}
use howdah.Docform.{Values, Component, cut_prefix, strip_prefix, parse_values, parsed_for, or_nil}

cut_prefix-some : (key p after : Bytes) → cut_prefix key p ≡ some after → key ≡ p ++ after
unfolding cut_prefix
cut_prefix-some key [] after h = ground arith
cut_prefix-some [] (c ∷ p) after h = cc
cut_prefix-some (d ∷ key) (c ∷ p) after h = ground (arith, cut_prefix-some key p after)

cut_prefix-append : (p after : Bytes) → cut_prefix (p ++ after) p ≡ some after
unfolding cut_prefix
cut_prefix-append [] after = refl
cut_prefix-append (c ∷ p) after = ground (arith, cut_prefix-append p after)

append_cancel : (p s t : Bytes) → p ++ s ≡ p ++ t → s ≡ t
append_cancel p s t h =
    ground (arith, cut_prefix-append p s, cut_prefix-append p t, ap (λ u. cut_prefix u p) h)

dotted : (prefix asked : Bytes) → (prefix ++ bytes ".") ++ asked ≡ prefix ++ b'.' ∷ asked
dotted prefix asked = append_assoc prefix (bytes ".") asked

-- Under the prefix and a dot.
lookup-strip_prefix :
    (prefix asked : Bytes) (values : Values)
    → lookup asked (strip_prefix prefix values) ≡ lookup (prefix ++ b'.' ∷ asked) values
unfolding strip_prefix lookup
lookup-strip_prefix prefix asked [] = refl
lookup-strip_prefix prefix asked ((key, vals) ∷ values) =
    let before = lookup-strip_prefix prefix asked values in
    let full = prefix ++ b'.' ∷ asked in
    elim (Option-cases (cut_prefix key (prefix ++ bytes "."))) [
      | inl other ↦
          let apart : key ≢ full = λ e.
            cc (cut_prefix-append (prefix ++ bytes ".") asked, dotted prefix asked, e, other) in
          ground (arith, other, before, ==_iff key full, apart)
      | inr (after, cut) ↦
          let whole : key ≡ prefix ++ b'.' ∷ after =
            cut_prefix-some key (prefix ++ bytes ".") after cut ∙ dotted prefix after in
          let same : key ≡ full → after ≡ asked =
            λ e. cc (append_cancel prefix (b'.' ∷ after) (b'.' ∷ asked) (sym whole ∙ e)) in
          let back : after ≡ asked → key ≡ full = λ e. cc (whole, e) in
          ground (
            arith,
            cut,
            before,
            lookup-insert after asked vals (strip_prefix prefix values),
            ==_iff key full,
            ==_iff after asked,
            same,
            back,
          )
    ]

module _ {Block Data : Type 0} where
  pub parsed_for-parse_values :
      (components : List (Component Block Data)) (values : Values) (c : Component Block Data)
      → In c components
      → parsed_for (parse_values components values) c.name ≡ strip_prefix c.name values
  unfolding parse_values
  parsed_for-parse_values [] values c i = elim i [ ]
  parsed_for-parse_values (d ∷ components) values c i =
      let stored : lookup c.name
            (insert d.name (strip_prefix d.name values) (parse_values components values))
          ≡ (if d.name == c.name
              then some (strip_prefix d.name values)
              else lookup c.name (parse_values components values)) =
        lookup-insert d.name c.name (strip_prefix d.name values) (parse_values components values) in
      elim (Bool-cases (d.name == c.name)) [
        | inl same ↦
            let e : d.name ≡ c.name = ground (arith, ==_iff d.name c.name) in
            ap or_nil (rw same at stored) ∙ ap (λ n. strip_prefix n values) e
        | inr other ↦
            let later : In c components = elim i [
              | inl e ↦ absurd (ground (arith, ==_iff d.name c.name, ap (λ x. x.name) e))
              | inr j ↦ j
            ] in
            ap or_nil (rw other at stored) ∙ parsed_for-parse_values components values c later
      ]

  -- Every component of the form finds under a key exactly what was submitted under its name, a dot
  -- and that key, whichever other components there are.
  pub lookup-parse_values :
      (components : List (Component Block Data)) (values : Values) (c : Component Block Data)
      (asked : Bytes)
      → In c components
      → lookup asked (parsed_for (parse_values components values) c.name)
        ≡ lookup (c.name ++ b'.' ∷ asked) values
  lookup-parse_values components values c asked i =
      ap (lookup asked) (parsed_for-parse_values components values c i)
      ∙ lookup-strip_prefix c.name asked values
