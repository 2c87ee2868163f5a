-- ===== src/Server/Http/Mux.antt =====
-- The router of the library chi, by what it documents: a pattern is a path, or a path with `{id}` at
-- its end, which stands for one segment; a pattern without `{id}` comes first.
use own_pastebin.Prelude.{
  ◌≡◌, Bool, true, false, not, Option, none, some, List, [], ◌∷◌, ◌==◌, if◌then◌else◌, Text,
  text_eq, strip_prefix, all,
}

pub data Pattern : Type 0 where
  exact with_id : Text → Pattern

-- One segment of a path: at least one character, and no slash.
abbrev pub is_segment : Text → Bool
is_segment [] = false
is_segment (c ∷ s) = all (λ d. not (d == b'/')) (c ∷ s)

abbrev pub segment_of : Option Text → Option Text
segment_of none = none
segment_of (some s) = if is_segment s then some s else none

-- The value of `{id}` where a pattern fits; empty if the pattern has none.
abbrev pub fits : Pattern → Text → Option Text
fits (exact p) path = if text_eq p path then some [] else none
fits (with_id p) path = segment_of (strip_prefix p path)

abbrev pub add_fit : {A : Type 0} → A → Option Text → List (A × Text) → List (A × Text)
add_fit a none found = found
add_fit a (some id) found = (a, id) ∷ found

abbrev pub is_exact : Pattern → Bool
is_exact (exact p) = true
is_exact (with_id p) = false

-- The patterns that fit: all of them, and those without `{id}`.
module _ {A : Type 0} (path : Text) where
  abbrev pub fitting : List (Pattern × A) → List (A × Text)
  fitting [] = []
  fitting ((p, a) ∷ rs) = add_fit a (fits p path) (fitting rs)

  abbrev pub fitting_exactly : List (Pattern × A) → List (A × Text)
  fitting_exactly [] = []
  fitting_exactly ((exact p, a) ∷ rs) = add_fit a (fits (exact p) path) (fitting_exactly rs)
  fitting_exactly ((with_id p, a) ∷ rs) = fitting_exactly rs

pub record Mux : Type 1 where
  pub route : {A : Type 0} → List (Pattern × A) → Text → Option (A × Text)
  pub routes_exact :
      {A : Type 0} (rs : List (Pattern × A)) (path : Text) (a : A)
      → fitting_exactly path rs ≡ (a, []) ∷ []
      → route rs path ≡ some (a, [])
  pub routes_only :
      {A : Type 0} (rs : List (Pattern × A)) (path id : Text) (a : A)
      → fitting path rs ≡ (a, id) ∷ []
      → route rs path ≡ some (a, id)
  pub routes_none :
      {A : Type 0} (rs : List (Pattern × A)) (path : Text)
      → fitting path rs ≡ []
      → route rs path ≡ none
