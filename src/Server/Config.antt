-- ===== src/Server/Config.antt =====
-- The settings that are read from the environment: `parseTime`, `parseSize`, `parseExpiryTimes`,
-- `expiryTimes`, `extractPathPrefix`, `getEnv`, `getEnvInt` and `getEnvBool` of internal/config.go.
--
-- An int64 and a duration wrap. A number that does not fit is read as the nearest that does, since
-- the code drops the error of `strconv`, and a text that is no number as 0.
pub mod Options
pub mod Prefix
pub mod Time
pub mod Page
pub mod Size
pub mod Number
pub mod Load
mod Tests
use own_pastebin.Prelude.{
  ℕ, suc, ◌+◌, ◌-◌, ◌*◌, ◌%◌, Bool, true, false, ◌&&◌, ◌||◌, Option, none, some, List, [], ◌∷◌,
  ◌++◌, ◌==◌, map, if◌then◌else◌, ltb, leb, or_else, Text, codes, is_digit, text_eq, strip_prefix,
}
use own_pastebin.Server.Strings.{
  lower, upper, trim_space, trim_both, trim_right, strip_suffix, split_at,
}
use own_pastebin.Server.Ttl.{ℤ, pos, negsuc, word, half_word, nanoseconds, to_int64, parse_int}

-- `getEnv`; a variable that is not set is empty.
unfoldable pub get_env : Text → Text → Text
get_env [] fallback = fallback
get_env (c ∷ v) fallback = c ∷ v

-- `getEnvBool`
unfoldable pub get_env_bool : Text → Bool → Bool
get_env_bool [] fallback = fallback
get_env_bool (c ∷ v) fallback =
    let s = map lower (c ∷ v) in
    text_eq s (codes "1")
    || text_eq s (codes "true")
    || text_eq s (codes "yes")
    || text_eq s (codes "on")

-- `getEnvInt`
unfoldable pub get_env_int : Text → ℤ → ℤ
get_env_int v fallback = elim (parse_int v) [ none ↦ fallback | some n ↦ n ]

abbrev pub clamped : Bool → ℕ → ℤ
clamped false n = if ltb n half_word then pos n else pos (half_word - 1)
clamped true n =
    if n == 0 then pos 0 else if leb n half_word then negsuc (n - 1) else negsuc (half_word - 1)

-- `strconv.ParseUint(s, 10, 64)` behind the digits of a value: the number, or the largest one as soon
-- as it is out of range, whatever follows; `none` is a text that is no number.
unfoldable pub magnitude : ℕ → Text → Option ℕ
magnitude value [] = some value
magnitude value (c ∷ s) =
    let next = value * 10 + (c - b'0') in
    let rest = magnitude next s in
    if is_digit c then (if ltb next word then rest else some (word - 1)) else none

abbrev pub clamped_or_zero : Bool → Option ℕ → ℤ
clamped_or_zero negative none = pos 0
clamped_or_zero negative (some n) = clamped negative n

abbrev pub signed_value : Bool → Text → ℤ
signed_value negative [] = pos 0
signed_value negative (c ∷ s) = clamped_or_zero negative (magnitude 0 (c ∷ s))

-- The value that `n, _ := strconv.Atoi(s)` gives, and `ParseInt(s, 10, 64)` alike.
unfoldable pub int_value : Text → ℤ
int_value [] = pos 0
int_value (c ∷ s) =
    if c == b'-'
    then signed_value true s
    else if c == b'+'
    then signed_value false s
    else signed_value false (c ∷ s)

-- The product with a constant, which wraps.
unfoldable pub times : ℤ → ℕ → ℤ
times (pos n) k = to_int64 (n * k)
times (negsuc n) k = to_int64 (word - suc n * k % word)

-- The units of `parseTime` in the order of the tests, then "s", which may be missing.
abbrev pub hour : ℕ
hour = 3600 * nanoseconds

abbrev pub units_of_time : List (Text × ℕ)
units_of_time = (codes "mo", 30 * 24 * hour) ∷ (codes "d", 24 * hour) ∷ (codes "h", hour) ∷ []

abbrev pub units_of_size : List (Text × ℕ)
units_of_size =
    (codes "GB", 1024 * 1024 * 1024) ∷ (codes "MB", 1024 * 1024) ∷ (codes "KB", 1024) ∷ []

-- The number before the first suffix that fits.
unfoldable pub by_suffix : List (Text × ℕ) → Text → Option ℤ
by_suffix [] s = none
by_suffix ((suffix, k) ∷ us) s = elim (strip_suffix suffix s) [
  | none ↦ by_suffix us s
  | some t ↦ some (times (int_value t) k)
]

abbrev pub cleaned : Text → Text
cleaned v = trim_space (map lower v)

abbrev pub in_seconds : Text → ℤ
in_seconds s = times (int_value (or_else (strip_suffix (codes "s") s) s)) nanoseconds

unfoldable pub parse_time : Text → ℤ
unfolding by_suffix times int_value
parse_time v =
    if text_eq (cleaned v) [] || text_eq (cleaned v) (codes "0")
    then pos 0
    else or_else (by_suffix units_of_time (cleaned v)) (in_seconds (cleaned v))

unfoldable pub parse_size : Text → ℤ
unfolding by_suffix int_value
parse_size v = let s = trim_space (map upper v) in or_else (by_suffix units_of_size s) (int_value s)

-- `extractPathPrefix`: what stands behind the scheme, then from the first slash on, without the
-- slashes at its end.
abbrev pub after_scheme : Text → Option Text
after_scheme [] = none
after_scheme (c ∷ s) = elim (strip_prefix (codes "://") (c ∷ s)) [
  | none ↦ after_scheme s
  | some rest ↦ some rest
]

abbrev pub from_slash : Text → Text
from_slash [] = []
from_slash (c ∷ s) = if c == b'/' then c ∷ s else from_slash s

unfoldable pub extract_path_prefix : Text → Text
extract_path_prefix url = trim_right (λ c. c == b'/') (from_slash (or_else (after_scheme url) url))

-- An option of the menu.
pub record ExpiryOption : Type 0 where
  pub label : Text
  pub value : Text

abbrev pub is_quote : ℕ → Bool
is_quote c = c == b'"' || c == b'\''

-- `strings.Split(raw, ",")`
abbrev pub with_head : ℕ → List Text → List Text
with_head c [] = (c ∷ []) ∷ []
with_head c (s ∷ ss) = (c ∷ s) ∷ ss

abbrev pub split : Text → List Text
split [] = [] ∷ []
split (c ∷ s) = let later = split s in if c == b',' then [] ∷ later else with_head c later

abbrev pub option_if : Text → Text → Option ℤ → Option ExpiryOption
option_if label value none = none
option_if label value (some (negsuc n)) = none
option_if label value (some (pos n)) = some (record { label = label; value = value })

abbrev pub option_of : Text → Text → Option ExpiryOption
option_of label value = option_if label value (parse_int value)

abbrev pub parts_of : Option (Text × Text) → Option ExpiryOption
parts_of none = none
parts_of (some ([], after)) = none
parts_of (some (c ∷ before, [])) = none
parts_of (some (c ∷ before, d ∷ after)) =
    option_of (trim_space (c ∷ before)) (trim_space (d ∷ after))

-- An entry of the list; `none` for one that is skipped.
unfoldable pub parse_entry : Text → Option ExpiryOption
parse_entry entry = parts_of (split_at b':' (trim_space (trim_both is_quote (trim_space entry))))

abbrev pub kept_options : List Text → List ExpiryOption
kept_options [] = []
kept_options (e ∷ es) = elim (parse_entry e) [
  | none ↦ kept_options es
  | some o ↦ o ∷ kept_options es
]

unfoldable pub parse_expiry_times : Text → List ExpiryOption
unfolding parse_entry
parse_expiry_times raw =
    let s = trim_space (trim_both is_quote (trim_space raw)) in
    if text_eq s [] then [] else kept_options (split s)

abbrev pub listed : Text → Text → ExpiryOption
listed label value = record { label = label; value = value }

abbrev pub default_expiry_times : List ExpiryOption
default_expiry_times =
    listed (codes "Never") (codes "0")
    ∷ listed (codes "5 min") (codes "300")
    ∷ listed (codes "10 min") (codes "600")
    ∷ listed (codes "1 hour") (codes "3600")
    ∷ listed (codes "1 day") (codes "86400")
    ∷ listed (codes "1 week") (codes "604800")
    ∷ listed (codes "1 month") (codes "2592000")
    ∷ listed (codes "1 year") (codes "31536000")
    ∷ []

-- `expiryTimes`
unfoldable pub expiry_times : List ExpiryOption → List ExpiryOption
expiry_times [] = default_expiry_times
expiry_times (o ∷ os) = o ∷ os
