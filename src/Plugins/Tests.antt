-- ===== src/Plugins/Tests.antt =====
-- Lists of names at an input.
use own_pastebin.Prelude.{true, [], ◌∷◌, ◌≡◌, refl, codes, text_eq}
use own_pastebin.Plugins.{names, Window, returned, init_plugins}
use own_pastebin.Plugins.Laws.{init_plugins-called}

abbrev window : Window
window = record { is_function = λ n. text_eq n (codes "initMermaid"); completes = λ n. true }

init_plugins-called_test :
    init_plugins window (names (codes "initMermaid" ∷ codes "none" ∷ [])) 1 []
    ≡ returned (codes "init_plugins" ∷ codes "initMermaid" ∷ [])
init_plugins-called_test =
    init_plugins-called window (codes "initMermaid" ∷ codes "none" ∷ []) 0 [] (refl, (refl, tt))
      (refl, (refl, tt))
