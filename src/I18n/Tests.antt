-- ===== src/I18n/Tests.antt =====
-- Translations and languages at an input.
use own_pastebin.Prelude.{some, [], ◌∷◌, ◌≡◌, refl, codes}
use own_pastebin.I18n.Translate.{Catalogue, find_text}

abbrev catalogue : Catalogue
catalogue = (codes "failed", codes "Status {status}!") ∷ []

failed_found : find_text (codes "failed") catalogue ≡ some (codes "Status {status}!")
unfolding find_text
failed_found = refl
