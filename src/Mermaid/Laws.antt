-- ===== src/Mermaid/Laws.antt =====
-- Every history of the language selector and of the script that it loads.
use own_pastebin.Prelude.{ℕ, suc, Bool, ◌||◌, true, false, ◌≡◌, refl, ◌∙◌, arith, Text}
use own_pastebin.Mermaid.{
  Place, missing, shown, replaced, Viewer, render_mermaid, load_mermaid_then_render, script_loaded,
  script_failed, change_language,
}

pub data Step : Viewer → Viewer → Type 0 where
  changed : (lang : Text) (v : Viewer) → Step v (change_language lang v)
  loaded :
      (defines : Bool) (n : ℕ) (v : Viewer)
      → v.loading ≡ suc n
      → Step v (script_loaded defines (record v { loading = n }))
  failed :
      (n : ℕ) (v : Viewer) → v.loading ≡ suc n → Step v (script_failed (record v { loading = n }))

pub data Reach (v : Viewer) : Viewer → Type 0 where
  at_start : Reach v v
  and_then : {w x : Viewer} → Reach v w → Step w x → Reach v x

abbrev pub diagrams_at : Place → ℕ
diagrams_at missing = 0
diagrams_at shown = 0
diagrams_at replaced = 1

abbrev pub IsCounted : Viewer → Type 0
IsCounted v = v.diagrams ≡ diagrams_at v.place

render_mermaid-IsCounted : (v : Viewer) → IsCounted v → IsCounted (render_mermaid v)
unfolding render_mermaid
render_mermaid-IsCounted v h = ground arith

Step-IsCounted : {v w : Viewer} → Step v w → IsCounted v → IsCounted w
unfolding script_loaded script_failed change_language load_mermaid_then_render
Step-IsCounted (changed lang v) h = ground (arith, render_mermaid-IsCounted v h)
Step-IsCounted (loaded defines n v _) h =
    render_mermaid-IsCounted (record v { loading = n; has_mermaid = v.has_mermaid || defines }) h
Step-IsCounted (failed n v _) h = h

-- In every history of selections, loaded scripts and failed ones, from a page that shows the block
-- or has none: the diagram is rendered at most once, however often `mermaid` is selected while the
-- script is being loaded, and it has been rendered exactly where the block is replaced.
pub rendered_once : (v w : Viewer) → IsCounted v → Reach v w → w.diagrams ≡ diagrams_at w.place
rendered_once v _ h at_start = h
rendered_once v w h (and_then {w = x} r s) = Step-IsCounted s (rendered_once v x h r)

abbrev pub IsKept : Viewer → Viewer → Type 0
IsKept v w =
    (w.place ≡ replaced)
    × (w.class_name ≡ v.class_name)
    × (w.highlights ≡ v.highlights)
    × (w.plugin_runs ≡ v.plugin_runs)

Step-IsKept : {v w : Viewer} → Step v w → v.place ≡ replaced → IsKept v w
unfolding script_loaded script_failed change_language load_mermaid_then_render render_mermaid
Step-IsKept (changed lang v) h = rw h (refl, refl, refl, refl)
Step-IsKept (loaded true n v _) h = ground arith
Step-IsKept (loaded false n v _) h = ground arith
Step-IsKept (failed n v _) h = (h, refl, refl, refl)

-- Once a diagram stands in the place of the block, no history of selections and scripts changes the
-- language any more: the block stays replaced, its class stays, and nothing is highlighted.
pub stays_replaced : (v w : Viewer) → v.place ≡ replaced → Reach v w → IsKept v w
stays_replaced v _ h at_start = (h, refl, refl, refl)
stays_replaced v w h (and_then {w = x} r s) =
    let (p, a, b, c) = stays_replaced v x h r in
    let (p', a', b', c') = Step-IsKept s p in (p', a' ∙ a, b' ∙ b, c' ∙ c)
