-- ===== src/Strength.antt =====
-- The password meter: `updateStrength` of web/static/js/custom.js.
pub mod Laws
mod Tests
use own_pastebin.Prelude.{
  ℕ, ◌+◌, ◌/◌, Bool, true, false, not, ◌||◌, Option, none, some, List, [], ◌∷◌, ◌==◌, if◌then◌else◌,
  leb, min, length, Text, codes, any, is_digit, is_upper, is_lower,
}
use Prim.Native.String.{String}
use own_pastebin.Page.{Env, say}

-- `[^A-Za-z0-9]`
abbrev pub is_other : ℕ → Bool
is_other c = not (is_digit c || is_upper c || is_lower c)

abbrev pub point : Bool → ℕ
point true = 1
point false = 0

unfoldable pub score : Text → ℕ
score pwd =
    min 3 (length pwd / 8)
    + point (any is_upper pwd)
    + point (any is_lower pwd)
    + point (any is_digit pwd)
    + point (any is_other pwd)

abbrev pub max_score : ℕ
max_score = 7

pub record Meter : Type 0 where
  pub width : ℕ  -- in parts of `max_score`; the style is this in percent
  pub style : Text  -- bar.className
  pub label : Text

abbrev pub bar : Env → ℕ → String → String → Meter
bar env points style key = record {
  width = points;
  style = codes style;
  label = say env (codes key);
}

unfoldable pub update_strength : Env → Text → Meter
unfolding score
update_strength env pwd =
    let points = score pwd in
    if leb points 0
    then record { width = points; style = []; label = [] }
    else if leb points 2
    then bar env points "w3-container w3-red w3-round" "pwd-weak"
    else if leb points 4
    then bar env points "w3-container w3-khaki w3-round" "pwd-medium"
    else if leb points 6
    then bar env points "w3-container w3-light-green w3-round" "pwd-strong"
    else bar env points "w3-container w3-green w3-round" "pwd-beast"
