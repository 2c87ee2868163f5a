-- ===== src/Url/Read.antt =====
-- A server reads from the text of a well-formed URL the values that its list of parameters holds.
use own_pastebin.Prelude.{
  true, some, [], ◌∷◌, ◌++◌, ◌≡◌, ◌≢◌, refl, ◌∙◌, ap, arith, inl, inr, Bool-cases, append_assoc,
  Text, text_eq, text_eq_sound, is_word, strip_prefix, strip_prefix-append, All,
}
use own_pastebin.Url.Params.{
  Params, print_from, print, get_param, IsName, IsValue, AreParams, IsPath, read_pairs, read_query,
  value_end, value_of,
}
use own_pastebin.Url.Locate.{strip_prefix_other}

-- No pair begins inside a part with no `&`.
read_pairs_plain :
    (name u s : Text)
    → All (λ c. (c ≢ b'&') × (c ≢ b'#')) u
    → read_pairs name (u ++ s) ≡ read_pairs name s
unfolding read_pairs
read_pairs_plain name [] s h = refl
read_pairs_plain name (c ∷ u) s (h, hs) = ground (arith, read_pairs_plain name u s hs)

name-plain : (n : Text) → All (λ c. is_word c ≡ true) n → All (λ c. (c ≢ b'&') × (c ≢ b'#')) n
name-plain [] h = tt
name-plain (c ∷ n) (h, hs) = (ground arith, name-plain n hs)

value-plain : (v : Text) → IsValue v → All (λ c. (c ≢ b'&') × (c ≢ b'#')) v
value-plain [] h = tt
value-plain (c ∷ v) (h, hs) = (ground arith, value-plain v hs)

value_end-print : (v : Text) (ps : Params) → IsValue v → value_end (v ++ print_from b'&' ps) ≡ v
value_end-print [] [] h = refl
value_end-print [] (_ ∷ ps) h = refl
value_end-print (c ∷ v) ps (h, hs) = rw h.0 (ap (λ t. c ∷ t) (value_end-print v ps hs))

read_pairs_amp :
    (name s : Text)
    → read_pairs name (b'&' ∷ s) ≡ value_of (strip_prefix (name ++ b'=' ∷ []) s) (read_pairs name s)
unfolding read_pairs
read_pairs_amp name s = refl

read_pairs_eq : (name s : Text) → read_pairs name (b'=' ∷ s) ≡ read_pairs name s
unfolding read_pairs
read_pairs_eq name s = refl

read_query_mark : (name s : Text) → read_query name (b'?' ∷ s) ≡ read_pairs name (b'&' ∷ s)
unfolding read_query
read_query_mark name s = refl

read_query_slash : (name s : Text) → read_query name (b'/' ∷ s) ≡ read_query name s
unfolding read_query
read_query_slash name s = refl

strip_prefix_self : (name s : Text) → strip_prefix (name ++ b'=' ∷ []) (name ++ b'=' ∷ s) ≡ some s
strip_prefix_self name s =
    rw (← append_assoc name (b'=' ∷ []) s) (strip_prefix-append (name ++ b'=' ∷ []) s)

strip_prefix_same :
    (m name s : Text)
    → text_eq m name ≡ true
    → strip_prefix (name ++ b'=' ∷ []) (m ++ b'=' ∷ s) ≡ some s
strip_prefix_same m name s e = rw (text_eq_sound m name e) (strip_prefix_self name s)

read_pairs-print :
    (name : Text) (ps : Params)
    → IsName name
    → AreParams ps
    → read_pairs name (print_from b'&' ps) ≡ get_param name ps
read_pairs-print name [] hn h = unfold read_pairs in refl
read_pairs-print name ((m, v) ∷ ps) hn ((hm, hv), h) = elim (Bool-cases (text_eq m name)) [
  | inl e ↦ rw e (
      read_pairs_amp name _
      ∙ ap (λ o. value_of o (read_pairs name (m ++ b'=' ∷ (v ++ print_from b'&' ps))))
          (strip_prefix_same m name _ e)
      ∙ ap some (value_end-print v ps hv))
  | inr e ↦ rw e (
      read_pairs_amp name _
      ∙ ap (λ o. value_of o (read_pairs name (m ++ b'=' ∷ (v ++ print_from b'&' ps))))
          (strip_prefix_other name m _ hn.1 hm.1 e)
      ∙ read_pairs_plain name m (b'=' ∷ (v ++ print_from b'&' ps)) (name-plain m hm.1)
      ∙ read_pairs_eq name (v ++ print_from b'&' ps)
      ∙ read_pairs_plain name v (print_from b'&' ps) (value-plain v hv)
      ∙ read_pairs-print name ps hn h)
]

read_query_plain :
    (name u s : Text)
    → All (λ c. (c ≢ b'?') × (c ≢ b'#') × (c ≢ b'=')) u
    → read_query name (u ++ s) ≡ read_query name s
unfolding read_query
read_query_plain name [] s h = refl
read_query_plain name (c ∷ u) s (h, hs) = ground (arith, read_query_plain name u s hs)

read_query-query :
    (name : Text) (ps : Params)
    → IsName name
    → AreParams ps
    → read_query name (print_from b'?' ps) ≡ get_param name ps
read_query-query name [] hn h = unfold read_query in refl
read_query-query name ((m, v) ∷ ps) hn h =
    read_query_mark name _ ∙ read_pairs-print name ((m, v) ∷ ps) hn h

-- From the text of a well-formed URL a server reads under each name the value of the first
-- parameter of that name, and none where there is no such parameter.
pub read_query-print :
    (path name : Text) (ps : Params)
    → IsPath path
    → IsName name
    → AreParams ps
    → read_query name (print path ps) ≡ get_param name ps
read_query-print path name ps hp hn h =
    rw (hp.spelled, append_assoc hp.stem (b'/' ∷ []) (print_from b'?' ps))
      (read_query_plain name hp.stem (b'/' ∷ print_from b'?' ps) hp.plain
        ∙ read_query_slash name (print_from b'?' ps)
        ∙ read_query-query name ps hn h)
