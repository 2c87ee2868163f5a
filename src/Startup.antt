-- ===== src/Startup.antt =====
-- What web/static/js/custom.js does when a page is ready, and what its timers and the loaded scripts
-- do later: `getMeta` with the defaults, `loadScript`, `loadPrism`, `ensurePreId`, the listener of
-- `hashchange` with `compensateStickyNav`, and the calls in the handler of `DOMContentLoaded`.
-- (`initI18n` is in Loading; it changes nothing that is here.)
--
-- The listener of `hashchange` runs some time after the change: `changes` counts the events that wait.
-- `loading` lists the scripts under way. Prism is other code: whether its script defines `Prism` and
-- whether `highlightAll` returns are arguments. What Prism highlights of its own accord once it is
-- loaded, and what the language selector (Mermaid) lets it highlight again, is not counted here.
-- Lengths are whole pixels.
pub mod Laws
pub mod Late
mod Tests
use own_pastebin.Prelude.{
  ℕ, ◌+◌, ◌-◌, Bool, true, false, ◌&&◌, Option, none, some, List, [], ◌∷◌, ◌++◌, if◌then◌else◌,
  or_else, Text, codes, text_eq,
}
use own_pastebin.I18n.Translate.{found_or}
use own_pastebin.Send.{Settings}
use own_pastebin.LineHash.{pre_id, normalize_line_hash}

-- The `meta` elements of the page, by their names.
abbrev pub Metas : Type 0
Metas = List (Text × Text)

unfoldable pub get_meta : Text → Metas → Option Text
get_meta name [] = none
get_meta name ((n, content) ∷ metas) = if text_eq n name then some content else get_meta name metas

-- `getMeta(name) || fallback`
unfoldable pub meta_or : Text → Text → Metas → Text
unfolding get_meta
meta_or name fallback metas = found_or (get_meta name metas) fallback

unfoldable pub uri_prefix : Metas → Text
uri_prefix metas = meta_or (codes "uri-prefix") [] metas

-- The variable `state` at the start.
unfoldable pub start_settings : Metas → Settings
unfolding meta_or
start_settings metas = record {
  expiry = meta_or (codes "default-expiry") (codes "86400") metas;
  burn = meta_or (codes "default-burn") (codes "false") metas;
  protected = codes "false";
}

-- The parent of the code block. No other element has the id that the script looks for.
pub record Parent : Type 0 where
  pub is_pre : Bool
  pub id : Text  -- empty for none

pub data Script : Type 0 where
  prism clipboard : Script

pub record Page : Type 0 where
  pub parent : Option Parent  -- none where the page has no code block
  pub hash : Text
  pub changes : ℕ
  pub timers : ℕ
  pub scroll : ℕ
  pub styles : List Text
  pub loading : List Script
  pub requested : List Script
  pub load_highlights : ℕ  -- the calls of `Prism.highlightAll` in `loadPrism` that have returned

-- `loadScript`
abbrev pub load_script : Script → Page → Page
load_script s p = record p { loading = s ∷ p.loading; requested = s ∷ p.requested }

abbrev pub has_pre : Option Parent → Bool
has_pre none = false
has_pre (some e) = text_eq e.id pre_id

unfoldable pub load_prism : Text → Page → Page
load_prism prefix p =
    if has_pre p.parent
    then load_script prism
        (record p { styles = p.styles ++ (prefix ++ codes "/static/css/prism.css") ∷ [] })
    else p

-- The `then` of `loadPrism`: an exception goes to the `catch`, which writes to the console.
unfoldable pub prism_loaded : (defines completes : Bool) → Page → Page
prism_loaded defines completes p =
    if defines && completes
    then load_script clipboard (record p { load_highlights = p.load_highlights + 1 })
    else p

abbrev pub with_id : Parent → Parent
with_id e = if e.is_pre && text_eq e.id [] then record e { id = pre_id } else e

unfoldable pub ensure_pre_id : Page → Page
ensure_pre_id p = record p { parent = elim (p.parent) [ none ↦ none | some e ↦ some (with_id e) ] }

-- `normalizeLineHash` on the page's address.
unfoldable pub normalize : Page → Page
normalize p = record p { hash = or_else (normalize_line_hash p.hash) p.hash }

-- The listener of `hashchange`.
unfoldable pub hash_changed : Page → Page
unfolding normalize
hash_changed p = normalize (record p { timers = p.timers + 1 })

-- `compensateStickyNav`, with the height of the navigation bar if there is one; a page does not
-- scroll above its top.
unfoldable pub compensate : Option ℕ → Page → Page
compensate none p = p
compensate (some height) p = record p { scroll = p.scroll - height }

-- The handler of `DOMContentLoaded`.
unfoldable pub dom_ready : Text → Page → Page
unfolding load_prism ensure_pre_id normalize
dom_ready prefix p = normalize (ensure_pre_id (load_prism prefix p))
