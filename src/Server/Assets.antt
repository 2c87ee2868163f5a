-- ===== src/Server/Assets.antt =====
-- The style sheets, scripts and init names of a page: `Manager.BuildFor` of plugins/plugin.go with
-- the two plugins that main.go registers.
pub mod Laws
pub mod Inits
mod Tests
use own_pastebin.Prelude.{
  Bool, true, false, not, ◌||◌, Option, none, some, List, [], ◌∷◌, ◌++◌, if◌then◌else◌, Text, codes,
  text_eq,
}

abbrev pub has : Text → List Text → Bool
has s [] = false
has s (t ∷ ts) = text_eq t s || has s ts

-- The loop of `dedupeStrings`, with the map of the strings that it has seen.
unfoldable pub dedupe_from : List Text → List Text → List Text
dedupe_from seen [] = []
dedupe_from seen (s ∷ ss) =
    let added = s ∷ dedupe_from (s ∷ seen) ss in
    let dropped = dedupe_from seen ss in if has s seen then dropped else added

unfoldable pub dedupe_strings : List Text → List Text
unfolding dedupe_from
dedupe_strings ss = dedupe_from [] ss

-- A plugin; one that is not conditional has no test of the language.
pub record Plugin : Type 0 where
  pub active_for : Option (Text → Bool)
  pub css_imports : Text → List Text
  pub js_imports : Text → List Text
  pub js_init : Text  -- empty for none

pub record Base : Type 0 where
  pub path_prefix : Text
  pub css_imports : List Text
  pub js_imports : List Text

pub record Imports : Type 0 where
  pub css : List Text
  pub js : List Text
  pub inits : List Text

abbrev pub is_active : Option (Text → Bool) → Text → Bool
is_active none lang = true
is_active (some test) lang = test lang

abbrev pub named : Text → List Text
named [] = []
named (c ∷ s) = (c ∷ s) ∷ []

-- The loop over the plugins.
unfoldable pub add_plugins : Text → Text → List Plugin → Imports → Imports
add_plugins prefix lang [] out = out
add_plugins prefix lang (p ∷ ps) out = add_plugins prefix lang ps (
    if is_active p.active_for lang
    then record {
      css = out.css ++ p.css_imports prefix;
      js = out.js ++ p.js_imports prefix;
      inits = out.inits ++ named p.js_init;
    }
    else out)

unfoldable pub build_for : Base → List Plugin → Text → Imports
unfolding add_plugins dedupe_strings
build_for base plugins lang =
    let out =
      add_plugins base.path_prefix lang plugins
        (record { css = base.css_imports; js = base.js_imports; inits = [] }) in
    record {
      css = dedupe_strings out.css;
      js = dedupe_strings out.js;
      inits = dedupe_strings out.inits;
    }

unfoldable pub default_base : Text → Base
default_base prefix =
    let static = prefix ++ codes "/static" in
    record {
      path_prefix = prefix;
      css_imports = (static ++ codes "/css/w3.css") ∷ (static ++ codes "/css/all.min.css") ∷ [];
      js_imports = (static ++ codes "/js/custom.js") ∷ [];
    }

unfoldable pub prism_plugin : Plugin
prism_plugin = record {
  active_for = none;
  css_imports = λ prefix. [];
  js_imports = λ prefix. [];
  js_init = codes "init_plugins";
}

unfoldable pub mermaid_plugin : Plugin
mermaid_plugin = record {
  active_for = some (λ lang. text_eq lang (codes "mermaid"));
  css_imports = λ prefix. [];
  js_imports = λ prefix. (prefix ++ codes "/static/js/mermaid.min.js") ∷ [];
  js_init = codes "initMermaid";
}

-- What the server imports into the page of a paste in the given language.
unfoldable pub page_imports : Text → Text → Imports
unfolding build_for default_base prism_plugin mermaid_plugin
page_imports prefix lang = build_for (default_base prefix) (prism_plugin ∷ mermaid_plugin ∷ []) lang
