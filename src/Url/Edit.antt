-- ===== src/Url/Edit.antt =====
-- `replaceUrlParam` on a well-formed URL edits its list of parameters.
use own_pastebin.Prelude.{
  ℕ, Bool, true, false, not, [], ◌∷◌, ◌++◌, ◌≡◌, ◌≢◌, refl, sym, ◌∙◌, ap, if◌then◌else◌, arith,
  append_assoc, append-nil, Text, codes, text_eq, contains, is_word, All, All-append, Lacks,
}
use own_pastebin.Url.{Match, expand, strip_last, has_query, replace_match}
use own_pastebin.Url.Params.{
  Params, print_from, print_rest, print, set_param, has_param, IsName, IsValue, AreParams, IsPath,
}
use own_pastebin.Url.Search.{splice}

expand-cons : (m : Match) (c : ℕ) (s : Text) → c ≢ b'$' → expand m (c ∷ s) ≡ c ∷ expand m s
unfolding expand
expand-cons m c [] h = refl
expand-cons m c (d ∷ []) h = ground arith
expand-cons m c (d ∷ e ∷ s) h = ground arith

expand-append : (m : Match) (v s : Text) → Lacks b'$' v → expand m (v ++ s) ≡ v ++ expand m s
expand-append m [] s h = refl
expand-append m (c ∷ v) s (h, hs) =
    expand-cons m c (v ++ s) h ∙ ap (λ t. c ∷ t) (expand-append m v s hs)

expand_group1 :
    (m : Match) (s : Text) → s ≢ [] → expand m (codes "$1" ++ s) ≡ m.group1 ++ expand m s
unfolding expand
expand_group1 m [] h = absurd (h refl)
expand_group1 m (c ∷ s) h = refl

expand_group2 : (m : Match) → expand m (codes "$2") ≡ m.group2
unfolding expand
expand_group2 m = refl

concat_ne : (u : Text) (c : ℕ) (s : Text) → u ++ c ∷ s ≢ []
concat_ne [] c s = cc
concat_ne (d ∷ u) c s = cc

-- A value with no dollar sign stands in the replacement as it is.
pub replace_match-splice :
    (value : Text) (m : Match) → Lacks b'$' value → replace_match value m ≡ splice value m
unfolding replace_match
replace_match-splice value m h =
    ap (λ t. m.before ++ (t ++ m.after))
      (expand_group1 m (value ++ codes "$2") (concat_ne value b'$' _)
        ∙ ap (λ t. m.group1 ++ t)
            (expand-append m value (codes "$2") h ∙ ap (λ t. value ++ t) (expand_group2 m)))
    ∙ ap (λ t. m.before ++ t)
        (append_assoc m.group1 (value ++ m.group2) m.after
          ∙ ap (λ t. m.group1 ++ t) (append_assoc value m.group2 m.after))

abbrev IsQueryTail : Text → Type 0
IsQueryTail = All (λ c. (c ≢ b'?') × (c ≢ b'#'))

strip_last-cons : (c : ℕ) (s : Text) → s ≢ [] → strip_last (c ∷ s) ≡ c ∷ strip_last s
unfolding strip_last
strip_last-cons c [] h = absurd (h refl)
strip_last-cons c (d ∷ s) h = refl

strip_last_plain : (s : Text) → IsQueryTail s → strip_last s ≡ s
unfolding strip_last
strip_last_plain [] k = refl
strip_last_plain (c ∷ []) k = ground arith
strip_last_plain (c ∷ d ∷ s) k = ap (λ t. c ∷ t) (strip_last_plain (d ∷ s) k.1)

strip_last_keep :
    (u : Text) (c : ℕ) (s : Text) → IsQueryTail (c ∷ s) → strip_last (u ++ c ∷ s) ≡ u ++ c ∷ s
strip_last_keep [] c s k = strip_last_plain (c ∷ s) k
strip_last_keep (d ∷ u) c s k =
    strip_last-cons d (u ++ c ∷ s) (concat_ne u c s) ∙ ap (λ t. d ∷ t) (strip_last_keep u c s k)

name-IsQueryTail : (n : Text) → All (λ c. is_word c ≡ true) n → IsQueryTail n
name-IsQueryTail [] h = tt
name-IsQueryTail (c ∷ n) (h, hs) = (ground arith, name-IsQueryTail n hs)

value-IsQueryTail : (v : Text) → IsValue v → IsQueryTail v
value-IsQueryTail [] h = tt
value-IsQueryTail (c ∷ v) (h, hs) = (ground arith, value-IsQueryTail v hs)

pair-IsQueryTail :
    (n v s : Text) → IsName n → IsValue v → IsQueryTail s → IsQueryTail (n ++ b'=' ∷ (v ++ s))
pair-IsQueryTail n v s hn hv hs =
    All-append _ n _ (name-IsQueryTail n hn.1)
      (omega arith, All-append _ v s (value-IsQueryTail v hv) hs)

print_rest-IsQueryTail : (ps : Params) → AreParams ps → IsQueryTail (print_rest ps)
print_rest-IsQueryTail [] h = tt
print_rest-IsQueryTail ((n, v) ∷ ps) ((hn, hv), h) =
    (omega arith, pair-IsQueryTail n v (print_rest ps) hn hv (print_rest-IsQueryTail ps h))

-- No trailing `?` or `#` is dropped from a well-formed URL.
pub strip_last-print :
    (path : Text) (ps : Params)
    → IsPath path
    → AreParams ps
    → strip_last (print path ps) ≡ print path ps
strip_last-print path [] hp h =
    rw (append-nil path, hp.spelled) (strip_last_keep hp.stem b'/' [] (omega arith))
strip_last-print path (([], v) ∷ ps) hp h = absurd (h.0.0.0 refl)
strip_last-print path ((c ∷ n, v) ∷ ps) hp ((hn, hv), h) =
    ap strip_last (sym (append_assoc path (b'?' ∷ []) _))
    ∙ strip_last_keep (path ++ b'?' ∷ []) c (n ++ b'=' ∷ (v ++ print_rest ps))
        (pair-IsQueryTail (c ∷ n) v (print_rest ps) hn hv (print_rest-IsQueryTail ps h))
    ∙ append_assoc path (b'?' ∷ []) _

contains-plain :
    (u s : Text)
    → All (λ c. (c ≢ b'?') × (c ≢ b'#') × (c ≢ b'=')) u
    → contains b'?' (u ++ s) ≡ contains b'?' s
contains-plain [] s h = refl
contains-plain (c ∷ u) s (h, hs) = ground (arith, contains-plain u s hs)

has_query-append :
    (u : Text) (s : Text)
    → All (λ c. (c ≢ b'?') × (c ≢ b'#') × (c ≢ b'=')) u
    → has_query (u ++ b'/' ∷ s) ≡ contains b'?' s
unfolding has_query
has_query-append [] s h = refl
has_query-append (c ∷ u) s (h, hs) = ground (arith, contains-plain u (b'/' ∷ s) hs)

abbrev pub is_empty : Params → Bool
is_empty [] = true
is_empty (_ ∷ _) = false

pub has_query-print :
    (path : Text) (ps : Params) → IsPath path → has_query (print path ps) ≡ not (is_empty ps)
has_query-print path ps hp =
    rw (hp.spelled, append_assoc hp.stem (b'/' ∷ []) (print_from b'?' ps))
      (has_query-append hp.stem (print_from b'?' ps) hp.plain ∙ starts ps)
  where
    starts : (qs : Params) → contains b'?' (print_from b'?' qs) ≡ not (is_empty qs)
    starts [] = refl
    starts (_ ∷ _) = refl

pub path-Lacks : (path : Text) → IsPath path → Lacks b'=' path
path-Lacks path hp =
    rw hp.spelled (All-append _ hp.stem (b'/' ∷ []) (lacks hp.stem hp.plain) (omega arith))
  where
    lacks : (u : Text) → All (λ c. (c ≢ b'?') × (c ≢ b'#') × (c ≢ b'=')) u → Lacks b'=' u
    lacks [] h = tt
    lacks (c ∷ u) (h, hs) = (h.2, lacks u hs)

same_branches : (b : Bool) (x : ℕ) → (if b then x else x) ≡ x
same_branches true x = refl
same_branches false x = refl

-- The parameter that is not there is printed behind the others.
pub set_param_new :
    (n value : Text) (sep : ℕ) (ps : Params)
    → has_param n ps ≡ false
    → print_from sep (set_param n value ps)
      ≡ print_from sep ps ++ (if is_empty ps then sep else b'&') ∷ (n ++ b'=' ∷ value)
set_param_new n value sep [] h = ap (λ t. sep ∷ (n ++ b'=' ∷ t)) (append-nil value)
set_param_new n value sep ((m, v) ∷ ps) h =
    let other : text_eq m n ≡ false = ground arith in
    let absent : has_param n ps ≡ false = ground arith in
    let new = n ++ b'=' ∷ value in
    rw other (
      ap (λ t. sep ∷ (m ++ b'=' ∷ (v ++ t)))
        (set_param_new n value b'&' ps absent
          ∙ ap (λ c. print_rest ps ++ c ∷ new) (same_branches (is_empty ps) b'&'))
      ∙ ap (λ t. sep ∷ (m ++ b'=' ∷ t)) (sym (append_assoc v (print_rest ps) (b'&' ∷ new)))
      ∙ ap (λ t. sep ∷ t) (sym (append_assoc m (b'=' ∷ (v ++ print_rest ps)) (b'&' ∷ new))))
