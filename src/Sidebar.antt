-- ===== src/Sidebar.antt =====
-- The navigation bar: `toggleMobileMenu` of web/static/js/custom.js, and the button that opens the
-- modal of the deletion.
pub mod Laws
mod Tests
use own_pastebin.Prelude.{ℕ, Bool, true, false, not, ◌&&◌, Option, none, some, if◌then◌else◌, leb}

-- `is_open` is the class "open" of the bar, `none` on a page without it. The three margins get the
-- same value in one go.
pub record Layout : Type 0 where
  pub is_open : Option Bool
  pub width : ℕ  -- of the window, in pixels
  pub margin : ℕ  -- of the footer, the content and the top bar
  pub deletion_shown : Option Bool  -- none on a page without the modal

abbrev pub toggled : Bool → Layout → Layout
toggled now_open l = record l {
  is_open = some now_open;
  margin = if now_open && not (leb l.width 600) then 250 else 0;
}

abbrev pub toggle_from : Option Bool → Layout → Layout
toggle_from none l = l
toggle_from (some was_open) l = toggled (not was_open) l

unfoldable pub toggle_mobile_menu : Layout → Layout
toggle_mobile_menu l = toggle_from l.is_open l

abbrev pub set_display : Bool → Option Bool → Option Bool
set_display shown none = none
set_display shown (some _) = some shown

-- The button "Delete" of the bar.
unfoldable pub remove_click : Layout → Layout
remove_click l = record l { deletion_shown = set_display true l.deletion_shown }

-- A click in the modal; on its background it closes it.
unfoldable pub modal_click : Bool → Layout → Layout
modal_click on_background l =
    if on_background then record l { deletion_shown = set_display false l.deletion_shown } else l
