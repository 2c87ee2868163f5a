-- ===== src/Theme/Page.antt =====
-- The body's `light-mode` class and the theme classes of the whole page agree.
use own_pastebin.Prelude.{
  Bool, true, false, not, List, [], ◌∷◌, ◌++◌, ◌≡◌, refl, ◌∙◌, ap, arith, map, All, Text,
  text_eq_refl,
}
use own_pastebin.Theme.{
  ClassList, theme_map, has, apply_pairs, Document, apply_theme, light_mode, remove_class,
  add_class, toggle_class, re_theme, set_initial_theme,
}
use own_pastebin.Theme.Laws.{IsThemed, apply_pairs-IsThemed, has-apply_pairs}

abbrev pub is_dark_page : Document → Bool
is_dark_page d = not (has light_mode d.body)

-- On a dark page no element has a light class of the map, on a light page none has a dark one.
pub record IsConsistent (d : Document) : Type 0 where
  pub body : IsThemed (is_dark_page d) theme_map d.body
  pub others : All (IsThemed (is_dark_page d) theme_map) d.others

themed :
    (is_dark : Bool) (cs : ClassList)
    → IsThemed is_dark theme_map (apply_pairs is_dark theme_map cs)
themed true cs = apply_pairs-IsThemed true theme_map cs refl
themed false cs = apply_pairs-IsThemed false theme_map cs refl

All-IsThemed :
    (is_dark : Bool) (es : List ClassList)
    → All (IsThemed is_dark theme_map) (map (apply_pairs is_dark theme_map) es)
All-IsThemed is_dark [] = tt
All-IsThemed is_dark (e ∷ es) = (themed is_dark e, All-IsThemed is_dark es)

apply_theme-mode :
    (is_dark : Bool) (d : Document) → is_dark_page (apply_theme is_dark d) ≡ is_dark_page d
unfolding apply_theme
apply_theme-mode is_dark d = ap not (has-apply_pairs is_dark theme_map light_mode d.body refl)

apply_theme-IsConsistent :
    (is_dark : Bool) (d : Document)
    → is_dark_page d ≡ is_dark
    → IsConsistent (apply_theme is_dark d)
unfolding apply_theme
apply_theme-IsConsistent is_dark d e = record {
  body = rw (apply_theme-mode is_dark d, e) (themed is_dark d.body);
  others = rw (apply_theme-mode is_dark d, e) (All-IsThemed is_dark d.others);
}

has-remove_class : (c : Text) (cs : ClassList) → has c (remove_class c cs) ≡ false
has-remove_class c [] = refl
has-remove_class c (d ∷ cs) = ground (arith, has-remove_class c cs)

has-append : (c : Text) (cs : ClassList) → has c (cs ++ c ∷ []) ≡ true
has-append c [] = rw (text_eq_refl c)
has-append c (d ∷ cs) = ground (arith, has-append c cs)

has-add_class : (c : Text) (cs : ClassList) → has c (add_class c cs) ≡ true
has-add_class c cs = ground (arith, has-append c cs)

has-toggle_class : (c : Text) (cs : ClassList) → has c (toggle_class c cs) ≡ not (has c cs)
has-toggle_class c cs = ground (arith, has-append c cs, has-remove_class c cs)

-- `setInitialTheme` takes over the browser's preference: the page is dark exactly if a dark scheme is
-- preferred, and then no element of the page has a light class of the map; if not, none has a dark
-- one.
pub set_initial_theme-IsConsistent :
    (is_dark : Bool) (d : Document)
    → (is_dark_page (set_initial_theme is_dark d) ≡ is_dark)
      × IsConsistent (set_initial_theme is_dark d)
unfolding set_initial_theme
set_initial_theme-IsConsistent true d =
    let e = ap not (has-remove_class light_mode d.body) in
    let start = record d { body = remove_class light_mode d.body } in
    (apply_theme-mode true start ∙ e, apply_theme-IsConsistent true start e)
set_initial_theme-IsConsistent false d =
    let e = ap not (has-add_class light_mode d.body) in
    let start = record d { body = add_class light_mode d.body } in
    (apply_theme-mode false start ∙ e, apply_theme-IsConsistent false start e)

not-not : (b : Bool) → not (not b) ≡ b
not-not true = refl
not-not false = refl

-- `re_theme` turns a dark page light and a light page dark, and afterwards the theme classes of every
-- element agree with the body's `light-mode` class.
pub re_theme-IsConsistent :
    (d : Document) → (is_dark_page (re_theme d) ≡ not (is_dark_page d)) × IsConsistent (re_theme d)
unfolding re_theme
re_theme-IsConsistent d =
    let toggled = record d { body = toggle_class light_mode d.body } in
    (
      apply_theme-mode (is_dark_page toggled) toggled ∙ ap not (has-toggle_class light_mode d.body),
      apply_theme-IsConsistent (is_dark_page toggled) toggled refl,
    )
