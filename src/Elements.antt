-- ===== src/Elements.antt =====
-- The texts of the page's elements: the loops of `applyTranslations` of web/static/js/custom.js.
--
-- An element that lacks an attribute has `none` for it. No element stands inside another one here, and
-- the buttons of the menus, which Menu has, are not among them.
pub mod Laws
pub mod Named
mod Tests
use own_pastebin.Prelude.{
  Bool, false, Option, none, some, List, [], ◌∷◌, if◌then◌else◌, map, Text, text_eq,
}
use own_pastebin.I18n.Translate.{Catalogue, find_text}

pub record Element : Type 0 where
  pub id : Option Text
  pub i18n : Option Text  -- data-i18n
  pub i18n_placeholder : Option Text
  pub i18n_title : Option Text
  pub i18n_aria_label : Option Text
  pub content : Text
  pub placeholder : Text
  pub title : Text
  pub aria_label : Text

abbrev pub has_id : Text → Option Text → Bool
has_id key none = false
has_id key (some i) = text_eq i key

-- `getElementById(key)`, and the assignment to its text.
unfoldable pub set_by_id : Text → Text → List Element → List Element
set_by_id key text [] = []
set_by_id key text (e ∷ es) =
    if has_id key e.id then record e { content = text } ∷ es else e ∷ set_by_id key text es

-- The loop over `Object.keys(translations)`.
unfoldable pub set_ids : Catalogue → List Element → List Element
unfolding set_by_id
set_ids [] es = es
set_ids ((key, text) ∷ entries) es = set_ids entries (set_by_id key text es)

-- `if (translations[key]) ... = translations[key]`, where the attribute names the key.
unfoldable pub translated : Catalogue → Option Text → Text → Text
unfolding find_text
translated translations none text = text
translated translations (some key) text = elim (find_text key translations) [
  | none ↦ text
  | some [] ↦ text
  | some (c ∷ s) ↦ c ∷ s
]

module _ (translations : Catalogue) where
  unfoldable pub set_placeholder : Element → Element
  unfolding translated
  set_placeholder e = record e {
    placeholder = translated translations e.i18n_placeholder e.placeholder;
  }

  unfoldable pub set_title : Element → Element
  unfolding translated
  set_title e = record e { title = translated translations e.i18n_title e.title }

  unfoldable pub set_aria_label : Element → Element
  unfolding translated
  set_aria_label e = record e {
    aria_label = translated translations e.i18n_aria_label e.aria_label;
  }

  unfoldable pub set_content : Element → Element
  unfolding translated
  set_content e = record e { content = translated translations e.i18n e.content }

  -- The five loops, one after the other.
  unfoldable pub apply_translations : List Element → List Element
  unfolding set_ids set_placeholder set_title set_aria_label set_content
  apply_translations es =
      map set_content
        (map set_aria_label (map set_title (map set_placeholder (set_ids translations es))))
