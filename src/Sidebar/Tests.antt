-- ===== src/Sidebar/Tests.antt =====
-- The navigation bar at an input.
use own_pastebin.Prelude.{false, some, none, ◌≡◌, refl}
use own_pastebin.Sidebar.{Layout, toggle_mobile_menu}

abbrev wide : Layout
wide = record { is_open = some false; width = 1200; margin = 0; deletion_shown = none }

opened : (toggle_mobile_menu wide).margin ≡ 250
unfolding toggle_mobile_menu
opened = refl

covered : (toggle_mobile_menu (record wide { width = 600 })).margin ≡ 0
unfolding toggle_mobile_menu
covered = refl
