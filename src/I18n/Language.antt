-- ===== src/I18n/Language.antt =====
-- The language of the browser: `getBrowserLanguage` and the table of flags.
use own_pastebin.Prelude.{
  ℕ, ◌+◌, Bool, ◌||◌, Option, none, some, List, [], ◌∷◌, ◌==◌, if◌then◌else◌, map, is_some, Text,
  codes, text_eq, is_upper,
}
use own_pastebin.I18n.Translate.{find_text}

abbrev pub default_lang : Text
default_lang = codes "en"

abbrev pub flags : List (Text × Text)
flags =
    (codes "bg", codes "🇧🇬")
    ∷ (codes "ch", codes "🇨🇭")
    ∷ (codes "cn", codes "🇨🇳")
    ∷ (codes "en", codes "🇬🇧")
    ∷ (codes "de", codes "🇩🇪")
    ∷ (codes "fr", codes "🇫🇷")
    ∷ (codes "it", codes "🇮🇹")
    ∷ (codes "ru", codes "🇷🇺")
    ∷ (codes "ua", codes "🇺🇦")
    ∷ []

-- The lower-case names that every object inherits, and that `flags[short]` finds too.
abbrev pub is_inherited : Text → Bool
is_inherited s = text_eq s (codes "constructor") || text_eq s (codes "__proto__")

-- `toLowerCase`, on the letters of a language tag.
unfoldable pub to_lower : ℕ → ℕ
to_lower c = if is_upper c then c + 32 else c

-- `normalized.split("-")[0]`
unfoldable pub before_dash : Text → Text
before_dash [] = []
before_dash (c ∷ s) = if c == b'-' then [] else c ∷ before_dash s

unfoldable pub is_supported : Text → Bool
unfolding find_text
is_supported short = is_some (find_text short flags) || is_inherited short

-- The loop over the preferred languages.
unfoldable pub pick_language : List Text → Text
unfolding to_lower before_dash is_supported
pick_language [] = default_lang
pick_language (lang ∷ langs) =
    let normalized = map to_lower lang in
    let later = pick_language langs in
    if text_eq normalized (codes "de-ch")
    then codes "ch"
    else if is_supported (before_dash normalized)
    then before_dash normalized
    else later

abbrev pub or_language : Option Text → Text
or_language none = default_lang
or_language (some []) = default_lang
or_language (some (c ∷ s)) = c ∷ s

-- `navigator.languages` if it holds a language, else `navigator.language`, else the default.
unfoldable pub get_browser_language : List Text → Option Text → Text
unfolding pick_language
get_browser_language [] language = pick_language (or_language language ∷ [])
get_browser_language (lang ∷ langs) language = pick_language (lang ∷ langs)
