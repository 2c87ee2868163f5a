-- ===== src/Mermaid/Tests.antt =====
-- Mermaid is selected twice while its script is loaded, and then another language.
use own_pastebin.Prelude.{true, false, ◌≡◌, refl, Text, codes}
use own_pastebin.Mermaid.{
  replaced, shown, Viewer, render_mermaid, load_mermaid_then_render, script_loaded, change_language,
}
use own_pastebin.Mermaid.Laws.{at_start, and_then, changed, loaded, Reach, IsKept, stays_replaced}

abbrev page : Viewer
page = record {
  place = shown;
  class_name = codes "language-go";
  has_mermaid = false;
  has_prism = true;
  loading = 0;
  diagrams = 0;
  highlights = 0;
  plugin_runs = 0;
}

abbrev mermaid : Text
mermaid = codes "mermaid"

abbrev waiting : Viewer
waiting = change_language mermaid (change_language mermaid page)

abbrev rendered : Viewer
rendered =
    script_loaded true
      (record (script_loaded true (record waiting { loading = 1 })) { loading = 0 })

rendering : Reach page rendered
unfolding change_language load_mermaid_then_render script_loaded render_mermaid
rendering =
    and_then
      (and_then (and_then (and_then at_start (changed mermaid page)) (changed mermaid _))
        (loaded true 1 waiting refl))
      (loaded true 0 (script_loaded true (record waiting { loading = 1 })) refl)

rendered-place : rendered.place ≡ replaced
unfolding change_language load_mermaid_then_render script_loaded render_mermaid
rendered-place = refl

abbrev back : Viewer
back = change_language (codes "go") rendered

stays_replaced_test : IsKept rendered back
stays_replaced_test =
    stays_replaced rendered back rendered-place (and_then at_start (changed (codes "go") rendered))
