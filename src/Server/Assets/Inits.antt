-- ===== src/Server/Assets/Inits.antt =====
-- The names that the server writes into a page, and what `init_plugins` makes of them.
use own_pastebin.Prelude.{
  ℕ, List, [], ◌∷◌, ◌++◌, ◌≡◌, refl, arith, append_assoc, inl, inr, Bool-cases, if◌then◌else◌, Text,
  codes, text_eq, text_eq_refl,
}
use own_pastebin.Plugins.{names, Window, own_name, init_plugins}
use own_pastebin.Plugins.Laws.{Throws, init_plugins-Throws}
use own_pastebin.Server.Assets.Laws.{has-dedupe_strings}
use own_pastebin.Server.Assets.{
  has, page_imports, build_for, default_base, prism_plugin, mermaid_plugin, add_plugins,
  dedupe_strings, dedupe_from,
}

abbrev pub tail_inits : Text → List Text
tail_inits lang = if text_eq lang (codes "mermaid") then codes "initMermaid" ∷ [] else []

page_inits : (prefix lang : Text) → (page_imports prefix lang).inits ≡ own_name ∷ tail_inits lang
unfolding page_imports build_for default_base prism_plugin mermaid_plugin add_plugins dedupe_strings
    dedupe_from
page_inits prefix lang = elim (Bool-cases (text_eq lang (codes "mermaid"))) [
  | inl e ↦ rw e refl
  | inr e ↦ rw e refl
]

-- On the page of a paste in any language, `init_plugins` throws: the server names `init_plugins`
-- itself in the list of the functions to call, so that it calls itself until the engine's limit.
pub page_init_plugins-Throws :
    (w : Window) (prefix lang : Text) (depth : ℕ)
    → Throws (init_plugins w (names (page_imports prefix lang).inits) depth [])
page_init_plugins-Throws w prefix lang depth =
    rw (page_inits prefix lang) (init_plugins-Throws w [] (tail_inits lang) depth [])

strip_same : (p s t : Text) → text_eq (p ++ s) (p ++ t) ≡ text_eq s t
strip_same [] s t = refl
strip_same (c ∷ p) s t = ground (arith, strip_same p s t)

-- The page of a paste loads mermaid.min.js exactly if the paste's language is mermaid.
pub mermaid_loaded :
    (prefix lang : Text)
    → has (prefix ++ codes "/static/js/mermaid.min.js") (page_imports prefix lang).js
      ≡ text_eq lang (codes "mermaid")
unfolding page_imports build_for default_base prism_plugin mermaid_plugin add_plugins
mermaid_loaded prefix lang = elim (Bool-cases (text_eq lang (codes "mermaid"))) [
  | inl e ↦
      rw
        (
          e,
          has-dedupe_strings,
          append_assoc,
          strip_same,
          text_eq_refl (prefix ++ codes "/static/js/mermaid.min.js"),
        )
        refl
  | inr e ↦ rw (e, has-dedupe_strings, append_assoc, strip_same) refl
]
