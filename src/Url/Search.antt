-- ===== src/Url/Search.antt =====
-- Where the pattern of `replaceUrlParam` matches in the text of a well-formed URL.
use mathlib.Core.Option
use own_pastebin.Prelude.{
  ℕ, true, false, Option, none, some, [], ◌∷◌, ◌++◌, ◌≡◌, ◌≢◌, refl, sym, ◌∙◌, ap, arith,
  append_assoc, Text, is_word, strip_prefix, All, Lacks,
}
use own_pastebin.Url.{Match, match_here, search, shift}
use own_pastebin.Url.Params.{IsName}

-- The text with the match's value replaced.
abbrev pub splice : Text → Match → Text
splice value m = m.before ++ (m.group1 ++ (value ++ (m.group2 ++ m.after)))

abbrev pub spliced : Text → Option Match → Option Text
spliced value = Option.map (splice value)

-- Nothing but a separator can stand where a plain part ends.
abbrev pub IsEnd : Text → Type 0
IsEnd [] = Unit
IsEnd (c ∷ s) = (is_word c ≡ false) × (c ≢ b'=')

strip_prefix_plain :
    (n u s : Text)
    → All (λ c. is_word c ≡ true) n
    → Lacks b'=' u
    → IsEnd s
    → strip_prefix (n ++ b'=' ∷ []) (u ++ s) ≡ none
strip_prefix_plain [] [] [] hn hu hs = refl
strip_prefix_plain [] [] (d ∷ s) hn hu hs = ground arith
strip_prefix_plain [] (d ∷ u) s hn hu hs = ground arith
strip_prefix_plain (c ∷ n) [] [] hn hu hs = refl
strip_prefix_plain (c ∷ n) [] (d ∷ s) hn hu hs = ground arith
strip_prefix_plain (c ∷ n) (d ∷ u) s hn hu hs =
    ground (arith, strip_prefix_plain n u s hn.1 hu.1 hs)

pub match_here_miss :
    (name : Text) (prev : Option ℕ) (s : Text)
    → strip_prefix name s ≡ none
    → match_here name prev s ≡ none
unfolding match_here
match_here_miss name prev s h = ground arith

-- No name begins with an equals sign.
match_here_eq :
    (n : Text) (prev : Option ℕ) (s : Text)
    → IsName n
    → match_here (n ++ b'=' ∷ []) prev (b'=' ∷ s) ≡ none
match_here_eq [] prev s h = absurd (h.0 refl)
match_here_eq (c ∷ n) prev s h =
    match_here_miss (c ∷ (n ++ b'=' ∷ [])) prev (b'=' ∷ s) (ground arith)

match_here_inside :
    (name : Text) (p c : ℕ) (s : Text)
    → is_word p ≡ true
    → is_word c ≡ true
    → match_here name (some p) (c ∷ s) ≡ none
unfolding match_here
match_here_inside name p c s hp hc = rw (hp, hc)

abbrev pub prepend : Text → Option Text → Option Text
prepend u = Option.map (λ t. u ++ t)

pub prepend-append : (u w : Text) (o : Option Text) → prepend u (prepend w o) ≡ prepend (u ++ w) o
prepend-append u w none = refl
prepend-append u w (some t) = ap some (sym (append_assoc u w t))

spliced-shift :
    (c : ℕ) (value : Text) (o : Option Match)
    → spliced value (Option.map (shift c) o) ≡ prepend (c ∷ []) (spliced value o)
spliced-shift c value none = refl
spliced-shift c value (some m) = refl

-- A position where the pattern fails is passed over.
pub search_miss :
    (name : Text) (prev : Option ℕ) (c : ℕ) (s value : Text)
    → match_here name prev (c ∷ s) ≡ none
    → spliced value (search name prev (c ∷ s))
      ≡ prepend (c ∷ []) (spliced value (search name (some c) s))
unfolding search
search_miss name prev c s value h = rw h (spliced-shift c value (search name (some c) s))

abbrev pub last : Option ℕ → Text → Option ℕ
last prev [] = prev
last prev (c ∷ u) = last (some c) u

-- A plain part is passed over.
pub search_plain :
    (n u s : Text) (prev : Option ℕ) (value : Text)
    → All (λ c. is_word c ≡ true) n
    → Lacks b'=' u
    → IsEnd s
    → spliced value (search (n ++ b'=' ∷ []) prev (u ++ s))
      ≡ prepend u (spliced value (search (n ++ b'=' ∷ []) (last prev u) s))
search_plain n [] s prev value hn hu hs =
    elim (spliced value (search (n ++ b'=' ∷ []) prev s)) as (λ o. o ≡ prepend [] o) [
      | none ↦ refl
      | some t ↦ refl
    ]
search_plain n (c ∷ u) s prev value hn hu hs =
    search_miss (n ++ b'=' ∷ []) prev c (u ++ s) value
      (match_here_miss _ prev _ (strip_prefix_plain n (c ∷ u) s hn hu hs))
    ∙ ap (prepend (c ∷ [])) (search_plain n u s (some c) value hn hu.1 hs)
    ∙ prepend-append (c ∷ []) u _

-- Inside a word there is no boundary, so a longer name that ends in this one is no match.
pub search_word :
    (n w s : Text) (p : ℕ) (value : Text)
    → IsName n
    → is_word p ≡ true
    → All (λ c. is_word c ≡ true) w
    → spliced value (search (n ++ b'=' ∷ []) (some p) (w ++ b'=' ∷ s))
      ≡ prepend (w ++ b'=' ∷ []) (spliced value (search (n ++ b'=' ∷ []) (some b'=') s))
search_word n [] s p value hn hp hw =
    search_miss _ (some p) b'=' s value (match_here_eq n (some p) s hn)
search_word n (c ∷ w) s p value hn hp hw =
    search_miss (n ++ b'=' ∷ []) (some p) c (w ++ b'=' ∷ s) value
      (match_here_inside _ p c _ hp hw.0)
    ∙ ap (prepend (c ∷ [])) (search_word n w s c value hn hw.0 hw.1)
    ∙ prepend-append (c ∷ []) _ _
