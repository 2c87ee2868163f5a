-- ===== src/Loading.antt =====
-- The loading of a language: `loadLanguage` and `initI18n` of web/static/js/custom.js.
--
-- `loading` holds the languages whose files are being fetched, each with its place in the queue of
-- the requests; the files may arrive in any order. The names of the languages are no
-- names of properties that every object inherits, and the local storage takes what it is given.
pub mod Laws
pub mod Settling
mod Tests
use own_pastebin.Prelude.{
  Option, none, some, List, [], ◌∷◌, ◌++◌, if◌then◌else◌, Text, codes, text_eq,
}
use own_pastebin.I18n.Translate.{Catalogue, find_text, found_or}
use own_pastebin.I18n.Language.{default_lang, flags, get_browser_language, or_language}
use own_pastebin.Page.{Env}
use own_pastebin.Expiry.{Seconds}
use own_pastebin.Menu.{Menu, set_text, update_dropdown_labels}
use own_pastebin.Elements.{Element, apply_translations}

pub record Client : Type 0 where
  pub env : Env  -- with `currentTranslations`
  pub elements : List Element
  pub menu : Menu
  pub stored : Option Text  -- the item "language" of the local storage
  pub flag : Option Text  -- the text of the language button
  pub html_lang : Text
  pub loading : List Text

-- `flags[lang] || "🌐"`
abbrev pub flag_of : Text → Text
flag_of lang = found_or (find_text lang flags) (codes "🌐")

-- `loadLanguage(lang)` up to its first wait.
unfoldable pub load_language : Text → Client → Client
load_language lang c = record c { loading = c.loading ++ lang ∷ [] }

-- The file of the language has arrived.
unfoldable pub loaded : (Text → Seconds) → Text → Catalogue → Client → Client
unfolding apply_translations update_dropdown_labels
loaded number lang translations c =
    let env = record (c.env) { catalogue = translations } in
    record c {
      env = env;
      elements = apply_translations translations c.elements;
      menu = update_dropdown_labels env number c.menu;
      stored = some lang;
      flag = set_text (flag_of lang) c.flag;
      html_lang = lang;
    }

-- No response, an error status, or no JSON: the `catch` of `loadLanguage`.
unfoldable pub load_failed : Text → Client → Client
unfolding load_language
load_failed lang c = if text_eq lang default_lang then c else load_language default_lang c

-- `savedLang || getBrowserLanguage() || defaultLang`
unfoldable pub first_language : Option Text → List Text → Option Text → Text
unfolding get_browser_language
first_language saved languages language =
    found_or saved (or_language (some (get_browser_language languages language)))

-- `initI18n`, with the languages of the browser.
unfoldable pub init_i18n : List Text → Option Text → Client → Client
unfolding first_language load_language
init_i18n languages language c = load_language (first_language c.stored languages language) c
