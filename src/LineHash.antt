-- ===== src/LineHash.antt =====
-- Links to lines: `normalizeLineHash` of web/static/js/custom.js. The argument is
-- `window.location.hash`; the result is the new hash given to `history.replaceState`, or `none` where
-- nothing is replaced and the function returns false.
pub mod Laws
mod Tests
use own_pastebin.Prelude.{
  ℕ, Bool, true, false, not, ◌&&◌, ◌||◌, Option, none, some, List, [], ◌∷◌, ◌++◌, ◌==◌,
  if◌then◌else◌, is_some, Text, codes, strip_prefix, is_digit, is_space, all,
}

abbrev pub pre_id : Text
pre_id = codes "pastebin-pre"

-- `[\d,\-\s]`
abbrev pub is_range_char : ℕ → Bool
is_range_char c = is_digit c || c == b',' || c == b'-' || is_space c

-- `/^L([\d,\-\s]+)$/i`, with its group.
unfoldable pub match_lines : Text → Option Text
match_lines [] = none
match_lines (c ∷ []) = none
match_lines (c ∷ d ∷ s) =
    if (c == b'L' || c == b'l') && all is_range_char (d ∷ s) then some (d ∷ s) else none

-- `m[1].replace(/\s/g, "")`
unfoldable pub drop_spaces : Text → Text
drop_spaces [] = []
drop_spaces (c ∷ s) = if is_space c then drop_spaces s else c ∷ drop_spaces s

abbrev pub to_prism : Option Text → Option Text
to_prism none = none
to_prism (some lines) = some (b'#' ∷ (pre_id ++ b'.' ∷ drop_spaces lines))

unfoldable pub normalize_line_hash : Text → Option Text
unfolding match_lines
normalize_line_hash [] = none
normalize_line_hash (c ∷ h) =
    if is_some (strip_prefix (pre_id ++ b'.' ∷ []) h) then none else to_prism (match_lines h)
