-- ===== src/Elements/Laws.antt =====
-- After `applyTranslations` each element shows the texts of the catalogue.
use own_pastebin.Prelude.{ℕ, Option, none, some, List, [], ◌∷◌, ◌≡◌, refl, All, map, Text}
use own_pastebin.I18n.Translate.{Catalogue, find_text}
use own_pastebin.Elements.{
  Element, translated, set_ids, set_placeholder, set_title, set_aria_label, set_content,
  apply_translations,
}

-- `text` is the catalogue's text for the key, where the catalogue has one that is not empty.
abbrev pub Shows : Catalogue → Option Text → Text → Type 0
Shows translations none text = Unit
Shows translations (some key) text =
    (c : ℕ) (s : Text) → find_text key translations ≡ some (c ∷ s) → text ≡ c ∷ s

pub record IsTranslated (translations : Catalogue) (e : Element) : Type 0 where
  pub content_shown : Shows translations e.i18n e.content
  pub placeholder_shown : Shows translations e.i18n_placeholder e.placeholder
  pub title_shown : Shows translations e.i18n_title e.title
  pub aria_label_shown : Shows translations e.i18n_aria_label e.aria_label

module _ (translations : Catalogue) where
  translated-Shows :
      (key : Option Text) (text : Text) → Shows translations key (translated translations key text)
  unfolding translated
  translated-Shows none text = tt
  translated-Shows (some key) text = λ c s h. rw (translated, h) refl

  element-IsTranslated :
      (e : Element)
      → IsTranslated translations (
          set_content translations
            (set_aria_label translations (set_title translations (set_placeholder translations e))))
  unfolding set_content set_aria_label set_title set_placeholder
  element-IsTranslated e = record {
    content_shown = translated-Shows e.i18n e.content;
    placeholder_shown = translated-Shows e.i18n_placeholder e.placeholder;
    title_shown = translated-Shows e.i18n_title e.title;
    aria_label_shown = translated-Shows e.i18n_aria_label e.aria_label;
  }

  elements-IsTranslated :
      (es : List Element)
      → All (IsTranslated translations) (
          map (set_content translations) (
            map
              (set_aria_label translations)
              (map (set_title translations) (map (set_placeholder translations) es))))
  elements-IsTranslated [] = tt
  elements-IsTranslated (e ∷ es) = (element-IsTranslated e, elements-IsTranslated es)

  -- After `applyTranslations`, on any elements: for each of an element's four attributes
  -- (`data-i18n` and those for the placeholder, the title and the ARIA label) whose key has a text
  -- in the catalogue that is not empty, the element shows this text.
  pub apply_translations-IsTranslated :
      (es : List Element) → All (IsTranslated translations) (apply_translations translations es)
  unfolding apply_translations
  apply_translations-IsTranslated es = elements-IsTranslated (set_ids translations es)
