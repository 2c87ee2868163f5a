-- ===== src/Url/Params.antt =====
-- A URL as a path with a list of named values: what `replaceUrlParam` is meant to edit, how such a
-- URL is spelled, and how a value is found in its text.
use own_pastebin.Prelude.{
  ℕ, Bool, true, false, not, arith, Option, none, some, List, [], ◌∷◌, ◌++◌, ◌≡◌, ◌≢◌, ◌==◌, ◌||◌,
  if◌then◌else◌, Text, text_eq, is_word, is_line_end, strip_prefix, All, all, all_sound,
}

abbrev pub Params : Type 0
Params = List (Text × Text)

-- `name=value` for each pair, behind `sep` the first and behind `&` the others.
abbrev pub print_from : ℕ → Params → Text
print_from sep [] = []
print_from sep ((n, v) ∷ ps) = sep ∷ (n ++ b'=' ∷ (v ++ print_from b'&' ps))

abbrev pub print_rest : Params → Text
print_rest = print_from b'&'

abbrev pub print : Text → Params → Text
print path ps = path ++ print_from b'?' ps

-- The abstract edit: in place if the name is there, at the end if not.
abbrev pub set_param : Text → Text → Params → Params
set_param name value [] = (name, value) ∷ []
set_param name value ((n, v) ∷ ps) =
    if text_eq n name then (n, value) ∷ ps else (n, v) ∷ set_param name value ps

abbrev pub has_param : Text → Params → Bool
has_param name [] = false
has_param name ((n, v) ∷ ps) = text_eq n name || has_param name ps

abbrev pub get_param : Text → Params → Option Text
get_param name [] = none
get_param name ((n, v) ∷ ps) = if text_eq n name then some v else get_param name ps

-- A parameter's name: one or more word characters.
abbrev pub IsName : Text → Type 0
IsName n = (n ≢ []) × All (λ c. is_word c ≡ true) n

-- A value that can stand in a query: no `&`, `#`, `?`, `=` and no line end.
abbrev pub IsValue : Text → Type 0
IsValue =
    All
      (λ c. ((c == b'&' || c == b'#') ≡ false) × (is_line_end c ≡ false) × (c ≢ b'=') × (c ≢ b'?'))

abbrev pub is_value_char : ℕ → Bool
is_value_char c = not (c == b'&' || c == b'#' || is_line_end c || c == b'=' || c == b'?')

abbrev pub AreParams : Params → Type 0
AreParams = All (λ p. IsName p.0 × IsValue p.1)

-- A path that ends in a slash and holds no `?`, `#` and `=`.
pub record IsPath (path : Text) : Type 0 where
  pub stem : Text
  pub spelled : path ≡ stem ++ b'/' ∷ []
  pub plain : All (λ c. (c ≢ b'?') × (c ≢ b'#') × (c ≢ b'=')) stem

abbrev pub value_end : Text → Text
value_end [] = []
value_end (c ∷ s) = if c == b'&' || c == b'#' then [] else c ∷ value_end s

abbrev pub value_of : Option Text → Option Text → Option Text
value_of none later = later
value_of (some v) later = some (value_end v)

-- The reading of a query, independent of the pattern: behind the first `?` and behind each `&` a
-- pair begins; the value of the first pair with the name goes on to the next `&` or `#`.
unfoldable pub read_pairs : Text → Text → Option Text
read_pairs name [] = none
read_pairs name (c ∷ s) =
    let later = read_pairs name s in
    if c == b'&'
    then value_of (strip_prefix (name ++ b'=' ∷ []) s) later
    else if c == b'#'
    then none
    else later

unfoldable pub read_query : Text → Text → Option Text
unfolding read_pairs
read_query name [] = none
read_query name (c ∷ s) =
    let later = read_query name s in
    if c == b'?' then read_pairs name (b'&' ∷ s) else if c == b'#' then none else later

-- The conditions as tests, to be met by evaluation at a concrete text.
pub IsName-of : (c : ℕ) (s : Text) → all is_word (c ∷ s) ≡ true → IsName (c ∷ s)
IsName-of c s h = (cc, all_sound is_word (c ∷ s) h)

pub IsValue-of : (s : Text) → all is_value_char s ≡ true → IsValue s
IsValue-of [] h = tt
IsValue-of (c ∷ s) h = (ground arith, IsValue-of s (ground arith))
