-- ===== src/Loading/Tests.antt =====
-- Two languages that arrive in the other order, and one that fails, at an input.
use own_pastebin.Prelude.{
  refl, inl, inr, Bool-cases, ◌≤◌, ◌*◌, length, none, some, [], ◌∷◌, ◌⊎◌, if◌then◌else◌, Text,
  codes, text_eq,
}
use own_pastebin.I18n.Translate.{Catalogue}
use own_pastebin.Expiry.{Seconds, nan}
use own_pastebin.Elements.{Element}
use own_pastebin.Elements.Named.{AreDistinct}
use own_pastebin.Loading.{Client, load_language, loaded, load_failed}
use own_pastebin.Loading.Laws.{
  here, later, Reach, at_start, and_then, clicked, arrived, IsUnchanged, Speaks, one_language,
}
use own_pastebin.Loading.Settling.{Settles, no_more, failed, responses_bounded}

abbrev number : Text → Seconds
number t = nan

abbrev files : Text → Catalogue
files lang =
    if text_eq lang (codes "de")
    then (codes "yes", codes "Ja") ∷ (codes "intro", codes "Hallo") ∷ []
    else []

abbrev heading : Element
heading = record {
  id = none;
  i18n = some (codes "yes");
  i18n_placeholder = none;
  i18n_title = none;
  i18n_aria_label = none;
  content = codes "Yes";
  placeholder = [];
  title = [];
  aria_label = [];
}

abbrev intro : Element
intro = record heading { id = some (codes "intro"); i18n = none; content = codes "Hello" }

abbrev start : Client
start = record {
  env = record { prefix = []; catalogue = []; encode = λ t. t };
  elements = heading ∷ intro ∷ [];
  menu = record {
    settings = record { expiry = codes "3600"; burn = codes "false"; protected = codes "false" };
    expiry_btn = some [];
    burn_btn = none;
    protected_btn = none;
  };
  stored = none;
  flag = some [];
  html_lang = codes "en";
  loading = [];
}

abbrev both : Client
both = load_language (codes "de") (load_language (codes "fr") start)

abbrev shown : Client
shown = loaded number (codes "de") (files (codes "de")) (record both { loading = codes "fr" ∷ [] })

loading_both : Reach number files start shown
unfolding load_language
loading_both =
    and_then (and_then (and_then at_start (clicked (codes "fr") start)) (clicked (codes "de") _))
      (arrived (codes "de") (codes "fr" ∷ []) both (later here))

files-AreDistinct : (lang : Text) → AreDistinct (files lang)
unfolding own_pastebin.I18n.Translate.find_text
files-AreDistinct lang = elim (Bool-cases (text_eq lang (codes "de"))) [
  | inl h ↦ rw h (refl, (refl, tt))
  | inr h ↦ rw h tt
]

one_language_example :
    IsUnchanged number files start shown ⊎ ((lang : Text) × Speaks number files lang shown)
one_language_example = one_language number files files-AreDistinct start shown loading_both

abbrev asked : Client
asked = load_language (codes "fr") start

abbrev gave_up : Client
gave_up =
    load_failed (codes "en")
      (record (load_failed (codes "fr") (record asked { loading = [] })) { loading = [] })

both_fail : Settles number 2 asked gave_up
unfolding load_language load_failed
both_fail =
    failed 1 (codes "fr") [] asked gave_up here
      (failed 0 (codes "en") [] _ gave_up here (no_more gave_up))

responses_bounded_example : 2 ≤ 2 * length asked.loading
responses_bounded_example = responses_bounded number 2 asked gave_up both_fail
