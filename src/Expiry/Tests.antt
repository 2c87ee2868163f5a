-- ===== src/Expiry/Tests.antt =====
-- Expiry times at inputs.
use own_pastebin.Prelude.{[], ◌∷◌, ◌≡◌, refl, arith, codes}
use own_pastebin.Page.{Env, decimal}
use own_pastebin.I18n.Translate.{translate}
use own_pastebin.Expiry.{whole, nan, format_expiry}
use own_pastebin.Expiry.Laws.{IsShown, format_expiry-IsShown}

abbrev env : Env
env = record { prefix = []; catalogue = (codes "expiry-day", codes "d") ∷ []; encode = λ t. t }

shown :
    (format_expiry env (whole 86400) ≡ codes "1 d")
    × (format_expiry env (whole 59) ≡ codes "0 expiry-min")
    × (format_expiry env nan ≡ codes "NaN expiry-year")
unfolding format_expiry decimal translate
shown = (refl, refl, refl)

format_expiry-IsShown_test : IsShown env 86400 (format_expiry env (whole 86400))
format_expiry-IsShown_test = format_expiry-IsShown env 86400 (omega arith)
