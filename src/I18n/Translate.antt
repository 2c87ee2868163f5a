-- ===== src/I18n/Translate.antt =====
-- The translation helper `t`. A catalogue is the list of keys and texts of a language's JSON file;
-- only its own entries are looked up, since none of the script's keys is a property that every
-- object inherits.
use own_pastebin.Prelude.{
  ℕ, zero, suc, ◌-◌, Option, none, some, List, [], ◌∷◌, ◌++◌, ◌==◌, if◌then◌else◌, length, Text,
  text_eq, strip_prefix,
}

abbrev pub Catalogue : Type 0
Catalogue = List (Text × Text)

unfoldable pub find_text : Text → Catalogue → Option Text
find_text key [] = none
find_text key ((k, v) ∷ entries) = if text_eq k key then some v else find_text key entries

-- `a || b` on texts, where the empty text counts as false.
abbrev pub or_text : Text → Text → Text
or_text [] b = b
or_text (c ∷ a) b = c ∷ a

abbrev pub found_or : Option Text → Text → Text
found_or none b = b
found_or (some a) b = or_text a b

-- What `$d` stands for in the replacement of a plain text.
abbrev mark : Text → Text → Text → ℕ → Option Text
mark before matched after d =
    if d == b'$'
    then some (b'$' ∷ [])
    else if d == b'&'
    then some matched
    else if d == 96
    then some before
    else if d == 39
    then some after
    else none

unfoldable pub expand_text : Text → Text → Text → Text → Text
expand_text before matched after [] = []
expand_text before matched after (c ∷ []) = c ∷ []
expand_text before matched after (c ∷ d ∷ s) =
    let literal = c ∷ expand_text before matched after (d ∷ s) in
    let rest = expand_text before matched after s in
    if c == b'$'
    then elim (mark before matched after d) [ some t ↦ t ++ rest | none ↦ literal ]
    else literal

-- `text.replaceAll(needle, value)` from one position on: `before` is the text up to it, and `busy`
-- counts the characters of a match that are still to be passed.
unfoldable pub replace_from : Text → Text → Text → ℕ → Text → Text
unfolding expand_text
replace_from needle value before busy [] = []
replace_from needle value before (suc busy) (c ∷ s) =
    replace_from needle value (before ++ c ∷ []) busy s
replace_from needle value before zero (c ∷ s) =
    let matched = replace_from needle value (before ++ c ∷ []) (length needle - 1) s in
    let copied = replace_from needle value (before ++ c ∷ []) 0 s in
    elim (strip_prefix needle (c ∷ s)) [
      | some after ↦ expand_text before needle after value ++ matched
      | none ↦ c ∷ copied
    ]

unfoldable pub replace_all : Text → Text → Text → Text
unfolding replace_from
replace_all needle value text = replace_from needle value [] 0 text

abbrev pub placeholder : Text → Text
placeholder k = b'{' ∷ (k ++ b'}' ∷ [])

-- The loop over `Object.keys(vars)`. A value that is a number comes as its decimal text.
unfoldable pub fill : List (Text × Text) → Text → Text
unfolding replace_all
fill [] text = text
fill ((k, v) ∷ vars) text = fill vars (replace_all (placeholder k) v text)

unfoldable pub translate : Catalogue → Text → List (Text × Text) → Text → Text
unfolding find_text fill
translate catalogue key vars fallback =
    fill vars (found_or (find_text key catalogue) (or_text fallback key))
