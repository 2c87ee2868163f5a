-- ===== src/Theme/Tests.antt =====
-- Themes at an input.
use own_pastebin.Prelude.{not, [], ◌∷◌, ◌≡◌, refl, codes}
use own_pastebin.Theme.{Document, replace, apply_pair, apply_pairs, apply_theme, re_theme}
use own_pastebin.Theme.Page.{is_dark_page, IsConsistent, re_theme-IsConsistent}

abbrev sample : Document
sample = record {
  body = codes "light-mode" ∷ [];
  others = (codes "w3-bar" ∷ codes "w3-theme-l1" ∷ []) ∷ (codes "w3-theme-dark" ∷ []) ∷ [];
}

toggled : re_theme sample ≡ record {
  body = [];
  others = (codes "w3-bar" ∷ codes "w3-theme-d1" ∷ []) ∷ (codes "w3-theme-dark" ∷ []) ∷ [];
}
unfolding re_theme apply_theme apply_pairs apply_pair replace
toggled = refl

re_theme-IsConsistent_test :
    (is_dark_page (re_theme sample) ≡ not (is_dark_page sample)) × IsConsistent (re_theme sample)
re_theme-IsConsistent_test = re_theme-IsConsistent sample
