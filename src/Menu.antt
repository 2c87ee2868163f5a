-- ===== src/Menu.antt =====
-- The menus of the start page: the click handlers of the expiry, burn and protected menus, and
-- `updateDropdownLabels`, of web/static/js/custom.js.
--
-- A click finds a link (`closest`) or none; the menu's button may be missing.
pub mod Laws
mod Tests
use own_pastebin.Prelude.{
  Bool, Option, none, some, ◌++◌, [], ◌∷◌, if◌then◌else◌, Text, codes, text_eq, trim,
}
use own_pastebin.Page.{Env, say}
use own_pastebin.Expiry.{Seconds, format_expiry}
use own_pastebin.Send.{Settings}

-- A link of a menu: its `href` (expiry) or `data-value` (burn, protected), and its text.
pub record Link : Type 0 where
  pub value : Text
  pub content : Text

-- The page's variable `state` and the texts of the three buttons.
pub record Menu : Type 0 where
  pub settings : Settings
  pub expiry_btn : Option Text
  pub burn_btn : Option Text
  pub protected_btn : Option Text

-- `if (b) b.textContent = text`
abbrev pub set_text : Text → Option Text → Option Text
set_text text none = none
set_text text (some _) = some text

abbrev pub labelled : Text → Text → Text
labelled label text = label ++ (codes ": " ++ text)

module _ (env : Env) where
  unfoldable pub choose_expiry : Option Link → Menu → Menu
  choose_expiry none m = m
  choose_expiry (some link) m = record m {
    settings = record (m.settings) { expiry = link.value };
    expiry_btn =
        set_text (labelled (say env (codes "label-expires")) (trim link.content)) m.expiry_btn;
  }

  unfoldable pub choose_protected : Option Link → Menu → Menu
  choose_protected none m = m
  choose_protected (some link) m = record m {
    settings = record (m.settings) { protected = link.value };
    protected_btn =
        set_text (labelled (say env (codes "label-protected")) (trim link.content)) m.protected_btn;
  }

  unfoldable pub choose_burn : Option Link → Menu → Menu
  choose_burn none m = m
  choose_burn (some link) m = record m {
    settings = record (m.settings) { burn = link.value };
    burn_btn = set_text (labelled (say env (codes "label-burn")) (trim link.content)) m.burn_btn;
  }

  -- `(value === "true" ? t("yes") : t("no"))`
  abbrev pub yes_or_no : Text → Text
  yes_or_no value =
      if text_eq value (codes "true") then say env (codes "yes") else say env (codes "no")

  -- `number` is the engine's `Number`, on the texts that the page uses.
  unfoldable pub update_dropdown_labels : (Text → Seconds) → Menu → Menu
  update_dropdown_labels number m = record m {
    expiry_btn =
        set_text
          (labelled (say env (codes "label-expires"))
            (format_expiry env (number m.settings.expiry)))
          m.expiry_btn;
    burn_btn =
        set_text (labelled (say env (codes "label-burn")) (yes_or_no m.settings.burn)) m.burn_btn;
    protected_btn =
        set_text (labelled (say env (codes "label-protected")) (yes_or_no m.settings.protected))
          m.protected_btn;
  }
