-- ===== src/I18n/Laws.antt =====
-- The language of the browser is one that the page has.
use own_pastebin.Prelude.{
  Bool, true, false, Option, List, [], ◌∷◌, ◌≡◌, refl, inl, inr, Bool-cases, map, if◌then◌else◌,
  Text, codes, text_eq,
}
use own_pastebin.I18n.Translate.{find_text}
use own_pastebin.I18n.Language.{
  to_lower, before_dash, is_supported, or_language, pick_language, get_browser_language,
}

supported_default : is_supported (codes "en") ≡ true
unfolding is_supported find_text
supported_default = refl

supported_swiss : is_supported (codes "ch") ≡ true
unfolding is_supported find_text
supported_swiss = refl

chosen_supported :
    (swiss : Bool) (short later : Text)
    → is_supported later ≡ true
    → is_supported (if swiss then codes "ch" else if is_supported short then short else later)
      ≡ true
chosen_supported true short later h = supported_swiss
chosen_supported false short later h = elim (Bool-cases (is_supported short)) [
  | inl e ↦ rw e e
  | inr e ↦ rw e h
]

pick_language_supported : (langs : List Text) → is_supported (pick_language langs) ≡ true
unfolding pick_language
pick_language_supported [] = supported_default
pick_language_supported (lang ∷ langs) =
    chosen_supported (text_eq (map to_lower lang) (codes "de-ch")) (before_dash (map to_lower lang))
      (pick_language langs) (pick_language_supported langs)

-- Whatever the browser prefers, `getBrowserLanguage` gives a language that is in the table of
-- flags, or one of the two lower-case names that every object inherits.
pub get_browser_language_supported :
    (languages : List Text) (language : Option Text)
    → is_supported (get_browser_language languages language) ≡ true
unfolding get_browser_language
get_browser_language_supported [] language = pick_language_supported (or_language language ∷ [])
get_browser_language_supported (lang ∷ langs) language = pick_language_supported (lang ∷ langs)
