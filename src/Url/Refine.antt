-- ===== src/Url/Refine.antt =====
-- What `replaceUrlParam` does to a well-formed URL, against its list of parameters.
use mathlib.Core.Option
use own_pastebin.Prelude.{
  ℕ, Bool, true, false, not, Option, none, some, [], ◌∷◌, ◌++◌, ◌≡◌, refl, sym, ◌∙◌, ap,
  if◌then◌else◌, arith, inl, inr, Bool-cases, append_assoc, Text, Lacks,
}
use own_pastebin.Url.{Match, search, append_param, replace_or_append, replace_url_param}
use own_pastebin.Url.Params.{
  Params, print_from, print, set_param, has_param, IsName, AreParams, IsPath,
}
use own_pastebin.Url.Search.{spliced, IsEnd, prepend, last, search_plain}
use own_pastebin.Url.Locate.{search-print_from}
use own_pastebin.Url.Edit.{
  replace_match-splice, strip_last-print, has_query-print, path-Lacks, is_empty, set_param_new,
}

query-IsEnd : (ps : Params) → IsEnd (print_from b'?' ps)
query-IsEnd [] = tt
query-IsEnd (_ ∷ ps) = (refl, omega arith)

search-print :
    (path n value : Text) (ps : Params)
    → IsPath path
    → AreParams ps
    → IsName n
    → spliced value (search (n ++ b'=' ∷ []) none (print path ps))
      ≡ (if has_param n ps then some (print path (set_param n value ps)) else none)
search-print path n value ps hp h hn =
    search_plain n path (print_from b'?' ps) none value hn.1 (path-Lacks path hp) (query-IsEnd ps)
    ∙ ap (prepend path) (search-print_from n value (last none path) b'?' ps hn h refl)
    ∙ regroup (has_param n ps)
  where
    regroup :
        (b : Bool)
        → prepend path (if b then some (print_from b'?' (set_param n value ps)) else none)
          ≡ (if b then some (print path (set_param n value ps)) else none)
    regroup true = refl
    regroup false = refl

append_param-print :
    (path n value : Text) (ps : Params)
    → IsPath path
    → AreParams ps
    → has_param n ps ≡ false
    → append_param (print path ps) n value ≡ print path (set_param n value ps)
unfolding append_param
append_param-print path n value ps hp h absent =
    rw (strip_last-print path ps hp h, has_query-print path ps hp)
      (append_assoc path (print_from b'?' ps) _
        ∙ ap (λ t. path ++ t)
            (ap (λ c. print_from b'?' ps ++ c ∷ (n ++ b'=' ∷ value)) (flip (is_empty ps))
              ∙ sym (set_param_new n value b'?' ps absent)))
  where
    flip : (b : Bool) → ◌≡◌ {A = ℕ} (if not b then b'&' else b'?') (if b then b'?' else b'&')
    flip true = refl
    flip false = refl

replace_or_append-spliced :
    (url n value result : Text) (o : Option Match)
    → Lacks b'$' value
    → spliced value o ≡ some result
    → replace_or_append url n value o ≡ result
replace_or_append-spliced url n value result none h e = cc
replace_or_append-spliced url n value result (some m) h e =
    replace_match-splice value m h ∙ Option.some-injective _ _ e

replace_or_append-none :
    (url n value : Text) (o : Option Match)
    → spliced value o ≡ none
    → replace_or_append url n value o ≡ append_param url n value
replace_or_append-none url n value none e = refl
replace_or_append-none url n value (some m) e = cc

-- On the text of a URL that is a path with a list of parameters, `replaceUrlParam` writes the text
-- of the same path with the list edited: the value of the first parameter of that name is replaced,
-- or, if there is none, the parameter is added at the end. The name is one or more word
-- characters; the path ends in a slash and holds no `?`, `#` and `=`; the values in the list hold no
-- `&`, `#`, `?`, `=` and no line end; the new value holds no dollar sign.
pub replace_url_param-print :
    (path n value : Text) (ps : Params)
    → IsPath path
    → AreParams ps
    → IsName n
    → Lacks b'$' value
    → replace_url_param (print path ps) n (some value) ≡ print path (set_param n value ps)
unfolding replace_url_param
replace_url_param-print path n value ps hp h hn hv =
    let found = search-print path n value ps hp h hn in
    elim (Bool-cases (has_param n ps)) [
      | inl e ↦ replace_or_append-spliced (print path ps) n value _ _ hv (rw e at found)
      | inr e ↦
          replace_or_append-none (print path ps) n value _ (rw e at found)
          ∙ append_param-print path n value ps hp h e
    ]
