-- ===== src/Expiry.antt =====
-- The text of an expiry time: `formatExpiry` of web/static/js/custom.js.
--
-- Its argument is what `Number(seconds)` gives. The page's values are unsigned decimal texts (the
-- server's default and the links of the menu), so that this is a whole number; any text that is no
-- number gives NaN.
pub mod Laws
mod Tests
use own_pastebin.Prelude.{ℕ, ◌/◌, List, [], ◌∷◌, ◌++◌, ◌==◌, if◌then◌else◌, ltb, Text, codes}
use own_pastebin.Page.{Env, say, decimal}

pub data Seconds : Type 0 where
  whole : ℕ → Seconds
  nan : Seconds

-- `number + " " + t(key)`
abbrev pub counted : Env → Text → Text → Text
counted env number key = number ++ b' ' ∷ say env key

unfoldable pub format_expiry : Env → Seconds → Text
format_expiry env nan = counted env (codes "NaN") (codes "expiry-year")
format_expiry env (whole n) =
    if n == 0
    then say env (codes "expiry-never")
    else if ltb n 3600
    then counted env (decimal (n / 60)) (codes "expiry-min")
    else if ltb n 86400
    then counted env (decimal (n / 3600)) (codes "expiry-hour")
    else if ltb n 604800
    then counted env (decimal (n / 86400)) (codes "expiry-day")
    else if ltb n 2592000
    then counted env (decimal (n / 604800)) (codes "expiry-week")
    else if ltb n 31536000
    then counted env (decimal (n / 2592000)) (codes "expiry-month")
    else counted env (decimal (n / 31536000)) (codes "expiry-year")
