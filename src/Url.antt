-- ===== src/Url.antt =====
-- Query parameters in a URL text: `replaceUrlParam` and `flashBase` of web/static/js/custom.js.
--
-- The pattern `\b(param=).*?(&|#|$)` is matched by `search`, position by position from the left;
-- `expand` is the reading of `$1`, `$2`, `$&` and the like in the replacement of `replace`. The
-- parameter's name is taken literally, which is how every caller's name reads in a pattern.
pub mod Params
pub mod Search
pub mod Locate
pub mod Edit
pub mod Refine
pub mod Read
pub mod Printed
mod Tests
use mathlib.Core.Option
use own_pastebin.Prelude.{
  ℕ, Bool, true, false, not, ◌&&◌, ◌||◌, Option, none, some, List, [], ◌∷◌, ◌++◌, ◌==◌,
  if◌then◌else◌, or_else, Text, codes, is_word, is_line_end, strip_prefix, contains,
}

-- What a match of the pattern captures. `skipped` is the part under `.*?`.
pub record Match : Type 0 where
  pub before : Text
  pub group1 : Text
  pub skipped : Text
  pub group2 : Text
  pub after : Text

abbrev pub matched : Match → Text
matched m = m.group1 ++ m.skipped ++ m.group2

abbrev pub is_word_at : Option ℕ → Bool
is_word_at none = false
is_word_at (some c) = is_word c

abbrev pub first : Text → Option ℕ
first [] = none
first (c ∷ s) = some c

-- `\b` between the character before and the text that follows.
abbrev pub is_boundary : Option ℕ → Text → Bool
is_boundary prev s = if is_word_at prev then not (is_word_at (first s)) else is_word_at (first s)

abbrev pub skip : ℕ → Match → Match
skip c m = record m { skipped = c ∷ m.skipped }

-- `.*?(&|#|$)` behind a first group that has matched.
unfoldable pub find_end : Text → Text → Option Match
find_end name [] =
    some (record { before = []; group1 = name; skipped = []; group2 = []; after = [] })
find_end name (c ∷ s) =
    if c == b'&' || c == b'#'
    then some (record { before = []; group1 = name; skipped = []; group2 = c ∷ []; after = s })
    else if is_line_end c
    then none
    else Option.map (skip c) (find_end name s)

abbrev pub match_rest : Text → Option Text → Option Match
match_rest name none = none
match_rest name (some s) = find_end name s

-- The whole pattern at one position.
unfoldable pub match_here : Text → Option ℕ → Text → Option Match
match_here name prev s = if is_boundary prev s then match_rest name (strip_prefix name s) else none

abbrev pub shift : ℕ → Match → Match
shift c m = record m { before = c ∷ m.before }

abbrev pub first_of_two : Option Match → Option Match → Option Match
first_of_two none later = later
first_of_two (some m) later = some m

-- The leftmost match.
unfoldable pub search : Text → Option ℕ → Text → Option Match
search name prev [] = match_here name prev []
search name prev (c ∷ s) =
    let later = Option.map (shift c) (search name (some c) s) in
    first_of_two (match_here name prev (c ∷ s)) later

-- What `$d` stands for in a replacement text.
abbrev pub symbol : Match → ℕ → Option Text
symbol m d =
    if d == b'$'
    then some (b'$' ∷ [])
    else if d == b'&'
    then some (matched m)
    else if d == 96
    then some m.before
    else if d == 39
    then some m.after
    else if d == b'1'
    then some m.group1
    else if d == b'2'
    then some m.group2
    else none

-- What `$de` stands for: of two digits only `01` and `02` number a group.
abbrev pub two_digits : Match → ℕ → ℕ → Option Text
two_digits m d e =
    if d == b'0' && e == b'1'
    then some m.group1
    else if d == b'0' && e == b'2'
    then some m.group2
    else none

-- The replacement text with its `$` sequences replaced.
unfoldable pub expand : Match → Text → Text
expand m [] = []
expand m (c ∷ []) = c ∷ []
expand m (c ∷ d ∷ []) = if c == b'$' then or_else (symbol m d) (c ∷ d ∷ []) else c ∷ d ∷ []
expand m (c ∷ d ∷ e ∷ s) =
    let literal = c ∷ expand m (d ∷ e ∷ s) in
    let behind_one = expand m (e ∷ s) in
    let behind_two = expand m s in
    if c == b'$'
    then elim (two_digits m d e) [
      | some t ↦ t ++ behind_two
      | none ↦ elim (symbol m d) [ some t ↦ t ++ behind_one | none ↦ literal ]
    ]
    else literal

-- `url.replace(/[?#]$/, "")`
unfoldable pub strip_last : Text → Text
strip_last [] = []
strip_last (c ∷ []) = if c == b'?' || c == b'#' then [] else c ∷ []
strip_last (c ∷ d ∷ s) = c ∷ strip_last (d ∷ s)

-- `url.indexOf("?") > 0`
unfoldable pub has_query : Text → Bool
has_query [] = false
has_query (c ∷ s) = not (c == b'?') && contains b'?' s

unfoldable pub append_param : Text → Text → Text → Text
append_param url param value =
    let stripped = strip_last url in
    stripped ++ (if has_query stripped then b'&' else b'?') ∷ (param ++ b'=' ∷ value)

unfoldable pub replace_match : Text → Match → Text
replace_match value m = m.before ++ (expand m (codes "$1" ++ value ++ codes "$2") ++ m.after)

abbrev pub replace_or_append : Text → Text → Text → Option Match → Text
replace_or_append url param value none = append_param url param value
replace_or_append url param value (some m) = replace_match value m

-- A value of null or undefined is written as the empty text.
unfoldable pub replace_url_param : Text → Text → Option Text → Text
replace_url_param url param value =
    replace_or_append url param (or_else value []) (search (param ++ b'=' ∷ []) none url)

-- `uri_prefix` is a constant text of the script, empty if the page has none.
unfoldable pub flash_base : Text → Text
flash_base [] = b'/' ∷ []
flash_base (c ∷ s) = (c ∷ s) ++ b'/' ∷ []
