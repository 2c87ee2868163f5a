-- ===== src/Mermaid.antt =====
-- The language selector of a paste's page, with the diagrams: `loadMermaidThenRender`,
-- `_renderMermaid` and the selector's change handler of web/static/js/custom.js.
--
-- The block's element is looked up by its id, which finds it only while it stands in the document;
-- an element outside the document keeps its parent, and that parent has none.
pub mod Laws
mod Tests
use own_pastebin.Prelude.{
  ℕ, ◌+◌, Bool, true, false, ◌||◌, List, [], ◌∷◌, ◌++◌, if◌then◌else◌, Text, codes, text_eq,
}

-- The page has no code block, shows it, or has a diagram in its place.
pub data Place : Type 0 where
  missing shown replaced : Place

pub record Viewer : Type 0 where
  pub place : Place
  pub class_name : Text
  pub has_mermaid : Bool  -- whether `mermaid` is defined
  pub has_prism : Bool
  pub loading : ℕ  -- requests for mermaid.min.js under way
  pub diagrams : ℕ  -- calls of mermaid.run
  pub highlights : ℕ  -- calls of Prism.highlightElement
  pub plugin_runs : ℕ  -- calls of init_plugins

abbrev pub put_diagram : Place → Viewer → Viewer
put_diagram missing v = v
put_diagram shown v = record v { place = replaced; diagrams = v.diagrams + 1 }
put_diagram replaced v = v

-- `_renderMermaid`
unfoldable pub render_mermaid : Viewer → Viewer
render_mermaid v = if v.has_mermaid then put_diagram v.place v else v

-- `loadMermaidThenRender`
unfoldable pub load_mermaid_then_render : Viewer → Viewer
unfolding render_mermaid
load_mermaid_then_render v =
    if v.has_mermaid then render_mermaid v else record v { loading = v.loading + 1 }

-- The script's `onload`, after a script that defines `mermaid` or does not.
unfoldable pub script_loaded : Bool → Viewer → Viewer
unfolding render_mermaid
script_loaded defines v = render_mermaid (record v { has_mermaid = v.has_mermaid || defines })

-- The script's `onerror` only writes to the console.
unfoldable pub script_failed : Viewer → Viewer
script_failed v = v

abbrev pub highlight : Viewer → Viewer
highlight v =
    if v.has_prism
    then record v { highlights = v.highlights + 1 }
    else record v { plugin_runs = v.plugin_runs + 1 }

abbrev pub select : Place → Text → Viewer → Viewer
select missing lang v = v
select replaced lang v = v
select shown lang v =
    if text_eq lang (codes "mermaid")
    then load_mermaid_then_render v
    else highlight (record v { class_name = codes "language-" ++ lang })

-- The change handler.
unfoldable pub change_language : Text → Viewer → Viewer
unfolding load_mermaid_then_render
change_language lang v = select v.place lang v
