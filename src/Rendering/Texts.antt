-- ===== src/Rendering/Texts.antt =====
-- The texts of pages, of page.go: the template functions that localize, and PT. `localize` is the i18n
-- bundle: a localizer with the languages it prefers, and a message.
use howdah.Base.{ℕ, String, List, [], ◌∷◌, ◌++◌, Option, none, some, nat_eq}
use howdah.Base.Bytes.{Bytes, bytes, bytes_eq}
use howdah.Errors.{Message, TextLabel, Result, ok, err}
use howdah.Rendering.{Localizer}

-- A localizer's answer, or the message's id in brackets.
abbrev pub or_bracketed : Bytes → Result Bytes → Bytes
or_bracketed id (ok txt) = txt
or_bracketed id (err e) = b'[' ∷ (id ++ b']' ∷ [])

-- What is localized: a message, the values put in it and the count it agrees with.
pub record LocalizeConfig : Type 0 where
  pub default_message : Message
  pub template_data : Option ℕ
  pub plural_count : Option ℕ

module _ (localize : Localizer → LocalizeConfig → Result Bytes) where
  abbrev pub only : Message → LocalizeConfig
  only m = record { default_message = m; template_data = none; plural_count = none }

  unfoldable pub pt : Localizer → Message → Bytes
  pt loc msg = or_bracketed (bytes msg.id) (localize loc (only msg))

  -- More than one form leaves the text empty.
  abbrev pub form_of : String → List String → Message
  form_of str [] = record { id = str; other = str }
  form_of str (form ∷ []) = record { id = str; other = form }
  form_of str (form ∷ more ∷ rest) = record { id = str; other = "" }

  unfoldable pub t_func : Localizer → String → List String → Bytes
  t_func loc str forms = or_bracketed (bytes str) (localize loc (only (form_of str forms)))

  abbrev pub labelled : Localizer → TextLabel → Option Message → Bytes
  labelled loc lbl none = lbl.literal
  labelled loc lbl (some m) = or_bracketed (bytes m.id) (
      localize loc (record {
        default_message = m;
        template_data = lbl.values;
        plural_count = lbl.plural_count;
      }))

  unfoldable pub tl_func : Localizer → TextLabel → Bytes
  tl_func loc lbl = labelled loc lbl lbl.message

  unfoldable pub td_func : Localizer → String → String → ℕ → Bytes
  td_func loc id text values = or_bracketed (bytes id) (
      localize loc (record {
        default_message = record { id = id; other = text };
        template_data = some values;
        plural_count = none;
      }))
