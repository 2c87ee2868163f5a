-- ===== src/Elements/Tests.antt =====
-- The texts of an element at an input.
use own_pastebin.Prelude.{none, some, [], ◌∷◌, All, codes}
use own_pastebin.I18n.Translate.{Catalogue}
use own_pastebin.Elements.{Element, apply_translations}
use own_pastebin.Elements.Laws.{IsTranslated, apply_translations-IsTranslated}

abbrev german : Catalogue
german = (codes "msg-copy", codes "Kopieren") ∷ []

abbrev copy_btn : Element
copy_btn = record {
  id = some (codes "copy-btn");
  i18n = some (codes "msg-copy");
  i18n_placeholder = none;
  i18n_title = some (codes "msg-copy");
  i18n_aria_label = none;
  content = codes "Copy";
  placeholder = [];
  title = codes "Copy";
  aria_label = [];
}

apply_translations-IsTranslated_test :
    All (IsTranslated german) (apply_translations german (copy_btn ∷ []))
apply_translations-IsTranslated_test = apply_translations-IsTranslated german (copy_btn ∷ [])
