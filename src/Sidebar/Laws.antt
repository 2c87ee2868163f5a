-- ===== src/Sidebar/Laws.antt =====
-- The content is shifted only beside an open bar.
use own_pastebin.Prelude.{ℕ, Bool, true, false, some, ◌≡◌, ◌⊎◌, inl, arith}
use own_pastebin.Sidebar.{Layout, toggle_mobile_menu, remove_click, modal_click}

-- Clicks, and changes of the window's width.
pub data Step : Layout → Layout → Type 0 where
  toggled : (l : Layout) → Step l (toggle_mobile_menu l)
  resized : (width : ℕ) (l : Layout) → Step l (record l { width = width })
  removing : (l : Layout) → Step l (remove_click l)
  beside : (on_background : Bool) (l : Layout) → Step l (modal_click on_background l)

pub data Reach : Layout → Layout → Type 0 where
  at_start : {l : Layout} → Reach l l
  and_then : {l m n : Layout} → Reach l m → Step m n → Reach l n

abbrev pub IsShifted : Layout → Type 0
IsShifted l = (l.margin ≡ 0) ⊎ ((l.is_open ≡ some true) × (l.margin ≡ 250))

Step-IsShifted : {l m : Layout} → Step l m → IsShifted l → IsShifted m
unfolding toggle_mobile_menu remove_click modal_click
Step-IsShifted (toggled l) v = ground arith
Step-IsShifted (resized width l) v = v
Step-IsShifted (removing l) v = v
Step-IsShifted (beside true l) v = v
Step-IsShifted (beside false l) v = v

Reach-IsShifted : {l m : Layout} → Reach l m → IsShifted l → IsShifted m
Reach-IsShifted at_start v = v
Reach-IsShifted (and_then r s) v = Step-IsShifted s (Reach-IsShifted r v)

-- From a page whose content is not shifted, whatever is clicked and however the window's width
-- changes: the content is not shifted, or it is by 250 pixels and the bar is open.
pub shift_has_bar :
    (start l : Layout)
    → start.margin ≡ 0
    → Reach start l
    → (l.margin ≡ 0) ⊎ ((l.is_open ≡ some true) × (l.margin ≡ 250))
shift_has_bar start l h r = Reach-IsShifted r (inl h)
