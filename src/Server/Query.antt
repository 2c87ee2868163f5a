-- ===== src/Server/Query.antt =====
-- The parameters of a request, `r.URL.Query().Get(name)` in internal/routes.go, as Go's package net/url
-- reads them: pairs between `&`, of which those with a `;`, without a name or with a bad escape are
-- left out; in a name and a value `+` is a space, and `%` begins the two digits of a byte.
pub mod Laws
use own_pastebin.Prelude.{
  ℕ, ◌+◌, ◌-◌, ◌*◌, Bool, ◌||◌, ◌&&◌, Option, none, some, List, [], ◌∷◌, ◌==◌, if◌then◌else◌, leb,
  Text, text_eq, contains, is_digit, ◌>>=◌,
}
use own_pastebin.Server.Config.{with_head}
use own_pastebin.Server.Strings.{split_at}

abbrev pub is_hex : ℕ → Bool
is_hex c = is_digit c || (leb b'a' c && leb c b'f') || (leb b'A' c && leb c b'F')

abbrev pub hex_value : ℕ → ℕ
hex_value c = if is_digit c then c - b'0' else if leb b'a' c then c - b'a' + 10 else c - b'A' + 10

-- Where in an escape the text is read.
pub data Place : Type 0 where
  between behind_percent : Place
  behind_digit : ℕ → Place

abbrev pub consed : ℕ → Option Text → Option Text
consed c none = none
consed c (some s) = some (c ∷ s)

-- `url.QueryUnescape`
unfoldable pub unescape : Place → Text → Option Text
unescape between [] = some []
unescape behind_percent [] = none
unescape (behind_digit n) [] = none
unescape between (c ∷ s) =
    let escape = unescape behind_percent s in
    let rest = unescape between s in
    if c == b'%' then escape else consed (if c == b'+' then b' ' else c) rest
unescape behind_percent (c ∷ s) =
    let rest = unescape (behind_digit (hex_value c)) s in if is_hex c then rest else none
unescape (behind_digit n) (c ∷ s) =
    let rest = unescape between s in if is_hex c then consed (n * 16 + hex_value c) rest else none

-- The text behind the first `?`, without the fragment.
abbrev pub until_hash : Text → Text
until_hash [] = []
until_hash (c ∷ s) = if c == b'#' then [] else c ∷ until_hash s

unfoldable pub raw_query_of : Text → Text
raw_query_of [] = []
raw_query_of (c ∷ s) =
    let rest = raw_query_of s in if c == b'?' then until_hash s else if c == b'#' then [] else rest

abbrev pub segments : Text → List Text
segments [] = [] ∷ []
segments (c ∷ s) = let later = segments s in if c == b'&' then [] ∷ later else with_head c later

-- `strings.Cut(key, "=")`
abbrev pub cut : Text → Option (Text × Text) → Text × Text
cut s none = (s, [])
cut s (some p) = p

abbrev pub unescaped : Text × Text → Option (Text × Text)
unescaped (name, value) = unescape between name >>= λ n. unescape between value >>= λ v. some (n, v)

-- A pair; `none` for one that is left out.
unfoldable pub pair_of : Text → Option (Text × Text)
unfolding unescape
pair_of [] = none
pair_of (c ∷ s) =
    if contains b';' (c ∷ s) then none else unescaped (cut (c ∷ s) (split_at b'=' (c ∷ s)))

abbrev pub value_or : Text → Option (Text × Text) → Text → Text
value_or name none later = later
value_or name (some (n, v)) later = if text_eq n name then v else later

abbrev pub first_value : Text → List Text → Text
first_value name [] = []
first_value name (s ∷ ss) = value_or name (pair_of s) (first_value name ss)

-- The value of a parameter in an address, empty where it is missing.
unfoldable pub get_value : Text → Text → Text
unfolding raw_query_of pair_of
get_value name uri = first_value name (segments (raw_query_of uri))
