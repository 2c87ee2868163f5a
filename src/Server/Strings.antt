-- ===== src/Server/Strings.antt =====
-- The functions of Go's package strings that the server calls, on texts as lists of code points:
-- `TrimSpace`, `ToLower`, `ToUpper`, `HasSuffix` with `TrimSuffix`, `Index` of one byte, `Trim` and
-- `TrimRight` with a set of characters.
--
-- Letters outside of ASCII keep their case; the texts that the server compares with have none.

pub mod Laws
use mathlib.Core.List.{reverse}
use own_pastebin.Prelude.{
  ℕ, ◌+◌, ◌-◌, Bool, ◌||◌, ◌&&◌, Option, none, some, List, [], ◌∷◌, ◌==◌, map, if◌then◌else◌, leb,
  Text, is_upper, is_lower, strip_prefix,
}

-- Unicode's White_Space.
unfoldable pub is_go_space : ℕ → Bool
is_go_space c =
    (leb 9 c && leb c 13)
    || c == 32
    || c == 133
    || c == 160
    || c == 5760
    || (leb 8192 c && leb c 8202)
    || c == 8232
    || c == 8233
    || c == 8239
    || c == 8287
    || c == 12288

abbrev pub trim_left : (ℕ → Bool) → Text → Text
trim_left p [] = []
trim_left p (c ∷ s) = if p c then trim_left p s else c ∷ s

abbrev pub trim_right : (ℕ → Bool) → Text → Text
trim_right p s = reverse (trim_left p (reverse s))

abbrev pub trim_both : (ℕ → Bool) → Text → Text
trim_both p s = trim_right p (trim_left p s)

abbrev pub trim_space : Text → Text
trim_space = trim_both is_go_space

abbrev pub lower : ℕ → ℕ
lower c = if is_upper c then c + 32 else c

abbrev pub upper : ℕ → ℕ
upper c = if is_lower c then c - 32 else c

abbrev pub reversed : Option Text → Option Text
reversed none = none
reversed (some s) = some (reverse s)

-- What stands before a suffix, if the text has it.
unfoldable pub strip_suffix : Text → Text → Option Text
strip_suffix suffix s = reversed (strip_prefix (reverse suffix) (reverse s))

abbrev pub after_first : ℕ → Option (Text × Text) → Option (Text × Text)
after_first c none = none
after_first c (some (before, after)) = some (c ∷ before, after)

-- The texts before and behind the first occurrence of a character.
abbrev pub split_at : ℕ → Text → Option (Text × Text)
split_at d [] = none
split_at d (c ∷ s) =
    let later = after_first c (split_at d s) in if c == d then some ([], s) else later
