-- ===== src/Server/Assets/Tests.antt =====
-- The assets of a page at an input.
use own_pastebin.Prelude.{[], ◌∷◌, ◌≡◌, refl, codes}
use own_pastebin.Server.Assets.{dedupe_strings, page_imports}

repeated : dedupe_strings (codes "a" ∷ codes "b" ∷ codes "a" ∷ []) ≡ codes "a" ∷ codes "b" ∷ []
unfolding dedupe_strings
repeated = refl

mermaid_page : page_imports (codes "/p") (codes "mermaid") ≡ record {
  css = codes "/p/static/css/w3.css" ∷ codes "/p/static/css/all.min.css" ∷ [];
  js = codes "/p/static/js/custom.js" ∷ codes "/p/static/js/mermaid.min.js" ∷ [];
  inits = codes "init_plugins" ∷ codes "initMermaid" ∷ [];
}
unfolding page_imports
mermaid_page = refl
