-- ===== src/Menu/Tests.antt =====
-- The menus at an input.
use own_pastebin.Prelude.{none, some, [], ◌≡◌, refl, codes}
use own_pastebin.Page.{Env}
use own_pastebin.Expiry.{nan}
use own_pastebin.Menu.{
  Link, Menu, choose_expiry, choose_burn, choose_protected, update_dropdown_labels,
}
use own_pastebin.Menu.Laws.{choose_all}

abbrev env : Env
env = record { prefix = []; catalogue = []; encode = λ t. t }

abbrev hour : Link
hour = record { value = codes "3600"; content = codes " 1 hour " }

abbrev yes : Link
yes = record { value = codes "true"; content = codes "Yes" }

abbrev no : Link
no = record { value = codes "false"; content = codes "No" }

abbrev menu : Menu
menu = record {
  settings = record { expiry = codes "86400"; burn = codes "false"; protected = codes "false" };
  expiry_btn = some (codes "Expires");
  burn_btn = none;
  protected_btn = some [];
}

abbrev chosen : Menu
chosen = choose_all env env (λ t. nan) hour yes no menu

chosen_values :
    chosen.settings
    ≡ record { expiry = codes "3600"; burn = codes "true"; protected = codes "false" }
unfolding choose_expiry choose_burn choose_protected update_dropdown_labels
chosen_values = refl
