-- ===== src/Url/Locate.antt =====
-- The pattern of `replaceUrlParam` finds the parameter of that name, and nothing else, in the text
-- of a well-formed list of parameters.
use mathlib.Core.Option
use own_pastebin.Prelude.{
  ℕ, Bool, true, false, Option, none, some, [], ◌∷◌, ◌++◌, ◌≡◌, refl, ◌∙◌, ap, if◌then◌else◌, arith,
  inl, inr, Bool-cases, Option-cases, ==_refl, append_assoc, Text, text_eq, text_eq_sound, is_word,
  strip_prefix, strip_prefix-append, All, Lacks,
}
use own_pastebin.Url.{Match, find_end, match_here, search, skip}
use own_pastebin.Url.Params.{
  Params, print_from, print_rest, set_param, has_param, IsName, IsValue, AreParams,
}
use own_pastebin.Url.Search.{
  spliced, IsEnd, prepend, prepend-append, match_here_miss, search_miss, last, search_plain,
  search_word,
}

pub print_rest-IsEnd : (ps : Params) → IsEnd (print_rest ps)
print_rest-IsEnd [] = tt
print_rest-IsEnd ((n, v) ∷ ps) = (refl, omega arith)

value-Lacks : (v : Text) → IsValue v → Lacks b'=' v
value-Lacks [] h = tt
value-Lacks (c ∷ v) (h, hs) = (h.2, value-Lacks v hs)

pub strip_prefix_other :
    (n m s : Text)
    → All (λ c. is_word c ≡ true) n
    → All (λ c. is_word c ≡ true) m
    → text_eq m n ≡ false
    → strip_prefix (n ++ b'=' ∷ []) (m ++ b'=' ∷ s) ≡ none
strip_prefix_other [] [] s hn hm h = cc
strip_prefix_other [] (d ∷ m) s hn hm h = ground arith
strip_prefix_other (c ∷ n) [] s hn hm h = ground arith
strip_prefix_other (c ∷ n) (d ∷ m) s hn hm h = ground (arith, strip_prefix_other n m s hn.1 hm.1)

strip_prefix_sep :
    (n : Text) (sep : ℕ) (s : Text)
    → IsName n
    → is_word sep ≡ false
    → strip_prefix (n ++ b'=' ∷ []) (sep ∷ s) ≡ none
strip_prefix_sep [] sep s hn h = absurd (hn.0 refl)
strip_prefix_sep (c ∷ n) sep s hn h = ground arith

spliced-skip :
    (c : ℕ) (value : Text) (o : Option Match)
    → spliced value (Option.map (skip c) o) ≡ spliced value o
spliced-skip c value none = refl
spliced-skip c value (some m) = refl

-- Behind the name the lazy `.*?` runs to the next separator.
find_end_value :
    (name v value : Text) (ps : Params)
    → IsValue v
    → spliced value (find_end name (v ++ print_rest ps)) ≡ some (name ++ (value ++ print_rest ps))
unfolding find_end
find_end_value name [] value [] h = refl
find_end_value name [] value ((n, w) ∷ ps) h = refl
find_end_value name (c ∷ v) value ps (h, hs) =
    rw (h.0, h.1) (spliced-skip c value _ ∙ find_end_value name v value ps hs)

match_here_name :
    (n s : Text) (sep : ℕ)
    → IsName n
    → is_word sep ≡ false
    → match_here (n ++ b'=' ∷ []) (some sep) (n ++ b'=' ∷ s) ≡ find_end (n ++ b'=' ∷ []) s
unfolding match_here
match_here_name [] s sep hn h = absurd (hn.0 refl)
match_here_name (c ∷ n) s sep hn h =
    rw
      (h, hn.1.0, ==_refl c, ← append_assoc n (b'=' ∷ []) s, strip_prefix-append (n ++ b'=' ∷ []) s)

-- At a match the search stops.
search_hit :
    (name s : Text) (prev : Option ℕ) (m : Match)
    → match_here name prev s ≡ some m
    → search name prev s ≡ some m
unfolding search
search_hit name [] prev m h = h
search_hit name (c ∷ s) prev m h = rw h

search_found :
    (n v value : Text) (sep : ℕ) (ps : Params)
    → IsName n
    → IsValue v
    → is_word sep ≡ false
    → spliced value (search (n ++ b'=' ∷ []) (some sep) (n ++ b'=' ∷ (v ++ print_rest ps)))
      ≡ some (n ++ b'=' ∷ (value ++ print_rest ps))
search_found n v value sep ps hn hv h =
    elim (Option-cases (find_end (n ++ b'=' ∷ []) (v ++ print_rest ps))) [
      | inl e ↦ cc (rw e at (find_end_value (n ++ b'=' ∷ []) v value ps hv))
      | inr (m, e) ↦ rw (search_hit _ _ (some sep) m (match_here_name n _ sep hn h ∙ e)) (
          (rw e at (find_end_value (n ++ b'=' ∷ []) v value ps hv))
          ∙ ap some (append_assoc n (b'=' ∷ []) (value ++ print_rest ps)))
    ]

-- The parameter of another name is passed over.
search_other :
    (n m v value : Text) (sep : ℕ) (ps : Params)
    → IsName n
    → IsName m
    → IsValue v
    → text_eq m n ≡ false
    → spliced value (search (n ++ b'=' ∷ []) (some sep) (m ++ b'=' ∷ (v ++ print_rest ps)))
      ≡ prepend
          (m ++ b'=' ∷ v)
          (spliced value (search (n ++ b'=' ∷ []) (last (some b'=') v) (print_rest ps)))
search_other n [] v value sep ps hn hm hv e = absurd (hm.0 refl)
search_other n (a ∷ m) v value sep ps hn hm hv e =
    search_miss _ (some sep) a _ value
      (match_here_miss _ (some sep) _ (strip_prefix_other n (a ∷ m) _ hn.1 hm.1 e))
    ∙ ap (prepend (a ∷ [])) (search_word n m (v ++ print_rest ps) a value hn hm.1.0 hm.1.1)
    ∙ ap (λ o. prepend (a ∷ []) (prepend (m ++ b'=' ∷ []) o))
        (search_plain n v (print_rest ps) (some b'=') value hn.1 (value-Lacks v hv)
          (print_rest-IsEnd ps))
    ∙ prepend-append (a ∷ []) (m ++ b'=' ∷ []) _
    ∙ prepend-append (a ∷ (m ++ b'=' ∷ [])) v _
    ∙ ap
        (λ t.
          prepend (a ∷ t)
            (spliced value (search (n ++ b'=' ∷ []) (last (some b'=') v) (print_rest ps))))
        (append_assoc m (b'=' ∷ []) v)

-- A pair behind a separator: the value is replaced where the name is the one sought, and passed
-- over where it is not.
pub search_pair :
    (n m v value : Text) (prev : Option ℕ) (sep : ℕ) (ps : Params)
    → IsName n
    → IsName m
    → IsValue v
    → is_word sep ≡ false
    → spliced value (search (n ++ b'=' ∷ []) prev (sep ∷ (m ++ b'=' ∷ (v ++ print_rest ps)))) ≡ (
        if text_eq m n
        then some (sep ∷ (m ++ b'=' ∷ (value ++ print_rest ps)))
        else prepend
            (sep ∷ (m ++ b'=' ∷ v))
            (spliced value (search (n ++ b'=' ∷ []) (last (some b'=') v) (print_rest ps))))
search_pair n m v value prev sep ps hn hm hv h =
    search_miss _ prev sep _ value (match_here_miss _ prev _ (strip_prefix_sep n sep _ hn h))
    ∙ elim (Bool-cases (text_eq m n)) [
      | inl e ↦ rw e (
          rw (text_eq_sound m n e)
            (ap (prepend (sep ∷ [])) (search_found n v value sep ps hn hv h)))
      | inr e ↦ rw e (
          ap (prepend (sep ∷ [])) (search_other n m v value sep ps hn hm hv e)
          ∙ prepend-append (sep ∷ []) (m ++ b'=' ∷ v) _)
    ]

pub search_nil :
    (n value : Text) (prev : Option ℕ) → spliced value (search (n ++ b'=' ∷ []) prev []) ≡ none
unfolding search match_here
search_nil [] value prev = ground arith
search_nil (c ∷ n) value prev = ground arith

-- The whole list of parameters.
pub search-print_from :
    (n value : Text) (prev : Option ℕ) (sep : ℕ) (ps : Params)
    → IsName n
    → AreParams ps
    → is_word sep ≡ false
    → spliced value (search (n ++ b'=' ∷ []) prev (print_from sep ps))
      ≡ (if has_param n ps then some (print_from sep (set_param n value ps)) else none)
search-print_from n value prev sep [] hn hp h = search_nil n value prev
search-print_from n value prev sep ((m, v) ∷ ps) hn ((hm, hv), hp) h =
    search_pair n m v value prev sep ps hn hm hv h ∙ elim (Bool-cases (text_eq m n)) [
      | inl e ↦ rw e
      | inr e ↦ rw e (
          ap (prepend (sep ∷ (m ++ b'=' ∷ v)))
            (search-print_from n value (last (some b'=') v) b'&' ps hn hp refl)
          ∙ regroup (has_param n ps))
    ]
  where
    regroup :
        (b : Bool)
        → prepend
            (sep ∷ (m ++ b'=' ∷ v))
            (if b then some (print_rest (set_param n value ps)) else none)
          ≡ (if b
              then some (sep ∷ (m ++ b'=' ∷ (v ++ print_rest (set_param n value ps))))
              else none)
    regroup true = ap (λ t. some (sep ∷ t)) (append_assoc m (b'=' ∷ v) _)
    regroup false = refl
