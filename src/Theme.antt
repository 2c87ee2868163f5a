-- ===== src/Theme.antt =====
-- The colour theme: `themeMap`, `applyTheme`, `re_theme` and `setInitialTheme` of
-- web/static/js/custom.js. An element is its class list; the body is kept apart from the others.
pub mod Laws
pub mod Page
mod Tests
use own_pastebin.Prelude.{
  Bool, true, false, not, ◌&&◌, ◌||◌, List, [], ◌∷◌, ◌++◌, if◌then◌else◌, map, Text, codes, text_eq,
}

abbrev pub ClassList : Type 0
ClassList = List Text

abbrev pub Pairs : Type 0
Pairs = List (Text × Text)

abbrev pub theme_map : Pairs
theme_map =
    (codes "w3-theme-l5", codes "w3-theme-d5")
    ∷ (codes "w3-theme-l4", codes "w3-theme-d4")
    ∷ (codes "w3-theme-l3", codes "w3-theme-d3")
    ∷ (codes "w3-theme-l2", codes "w3-theme-d2")
    ∷ (codes "w3-theme-l1", codes "w3-theme-d1")
    ∷ (codes "w3-theme-light", codes "w3-theme-dark")
    ∷ []

-- `classList.contains`
abbrev pub has : Text → ClassList → Bool
has c [] = false
has c (d ∷ cs) = text_eq d c || has c cs

abbrev pub remove_both : Text → Text → ClassList → ClassList
remove_both old new [] = []
remove_both old new (c ∷ cs) =
    if text_eq c old || text_eq c new then remove_both old new cs else c ∷ remove_both old new cs

-- `classList.replace` where the list has the old class: the first of the two becomes the new one
-- and the others go.
unfoldable pub replace : Text → Text → ClassList → ClassList
replace old new [] = []
replace old new (c ∷ cs) =
    if text_eq c old || text_eq c new then new ∷ remove_both old new cs else c ∷ replace old new cs

unfoldable pub apply_pair : Bool → Text × Text → ClassList → ClassList
apply_pair is_dark (light, dark) cs =
    if has light cs && is_dark
    then replace light dark cs
    else if has dark cs && not is_dark
    then replace dark light cs
    else cs

-- The inner loop of `applyTheme`, on one element.
unfoldable pub apply_pairs : Bool → Pairs → ClassList → ClassList
apply_pairs is_dark [] cs = cs
apply_pairs is_dark (pair ∷ pairs) cs = apply_pairs is_dark pairs (apply_pair is_dark pair cs)

pub record Document : Type 0 where
  pub body : ClassList
  pub others : List ClassList

unfoldable pub apply_theme : Bool → Document → Document
apply_theme is_dark d = record {
  body = apply_pairs is_dark theme_map d.body;
  others = map (apply_pairs is_dark theme_map) d.others;
}

abbrev pub light_mode : Text
light_mode = codes "light-mode"

abbrev pub remove_class : Text → ClassList → ClassList
remove_class c [] = []
remove_class c (d ∷ cs) = if text_eq d c then remove_class c cs else d ∷ remove_class c cs

abbrev pub add_class : Text → ClassList → ClassList
add_class c cs = if has c cs then cs else cs ++ c ∷ []

-- `classList.toggle`
abbrev pub toggle_class : Text → ClassList → ClassList
toggle_class c cs = if has c cs then remove_class c cs else cs ++ c ∷ []

unfoldable pub re_theme : Document → Document
re_theme d =
    let toggled = record d { body = toggle_class light_mode d.body } in
    apply_theme (not (has light_mode toggled.body)) toggled

-- The argument is whether the browser prefers a dark scheme.
unfoldable pub set_initial_theme : Bool → Document → Document
set_initial_theme is_dark d =
    let body = if is_dark then remove_class light_mode d.body else add_class light_mode d.body in
    apply_theme is_dark (record d { body = body })
