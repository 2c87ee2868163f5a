-- ===== src/I18n/Filling.antt =====
-- The placeholders of `t`: what `replaceAll` makes of a text with one placeholder.
use own_pastebin.Prelude.{
  suc, ◌-◌, some, [], ◌∷◌, ◌++◌, ◌≡◌, refl, ◌∙◌, ap, arith, length, append_assoc, append-nil, Text,
  Lacks, strip_prefix-append,
}
use own_pastebin.I18n.Translate.{
  Catalogue, find_text, or_text, expand_text, replace_from, replace_all, placeholder, fill,
  translate,
}

expand_text-plain :
    (before matched after value : Text)
    → Lacks b'$' value
    → expand_text before matched after value ≡ value
unfolding expand_text
expand_text-plain before matched after [] h = refl
expand_text-plain before matched after (c ∷ []) h = refl
expand_text-plain before matched after (c ∷ d ∷ s) h =
    ground (arith, expand_text-plain before matched after (d ∷ s) h.1)

-- The rest of a match is passed.
replace_from-passed :
    (needle value before w s : Text)
    → replace_from needle value before (length w) (w ++ s)
      ≡ replace_from needle value (before ++ w) 0 s
unfolding replace_from
replace_from-passed needle value before [] s = rw append-nil refl
replace_from-passed needle value before (c ∷ w) s =
    replace_from-passed needle value (before ++ c ∷ []) w s
    ∙ ap (λ b. replace_from needle value b 0 s) (append_assoc before (c ∷ []) w)

module _ (needle value : Text) where
  replace_from-copied :
      (before text : Text)
      → Lacks b'{' text
      → replace_from (b'{' ∷ needle) value before 0 text ≡ text
  unfolding replace_from
  replace_from-copied before [] h = refl
  replace_from-copied before (c ∷ s) h =
      ground (arith, replace_from-copied (before ++ c ∷ []) s h.1)

  replace_from-one :
      (before pre post : Text)
      → Lacks b'{' pre
      → Lacks b'{' post
      → Lacks b'$' value
      → replace_from (b'{' ∷ needle) value before 0 (pre ++ (b'{' ∷ (needle ++ post)))
        ≡ pre ++ (value ++ post)
  unfolding replace_from
  replace_from-one before [] post h1 h2 h3 =
      let one_less : suc (length needle) - 1 ≡ length needle = omega arith in
      rw
        (
          strip_prefix-append needle post,
          one_less,
          expand_text-plain before (b'{' ∷ needle) post value h3,
          replace_from-passed (b'{' ∷ needle) value (before ++ b'{' ∷ []) needle post,
          replace_from-copied ((before ++ b'{' ∷ []) ++ needle) post h2,
        )
        refl
  replace_from-one before (c ∷ pre) post h1 h2 h3 =
      ground (arith, replace_from-one (before ++ c ∷ []) pre post h1.1 h2 h3)

or_text-brace : (pre rest b : Text) → or_text (pre ++ b'{' ∷ rest) b ≡ pre ++ b'{' ∷ rest
or_text-brace [] rest b = refl
or_text-brace (c ∷ pre) rest b = refl

-- Where the catalogue has for a key a text with one placeholder, and no other `{`, the
-- translation puts the value, if it has no `$`, in the place of the placeholder and leaves the rest
-- of the text as it is.
pub translate_filled :
    (catalogue : Catalogue) (key k value fallback pre post : Text)
    → find_text key catalogue ≡ some (pre ++ (placeholder k ++ post))
    → Lacks b'{' pre
    → Lacks b'{' post
    → Lacks b'$' value
    → translate catalogue key ((k, value) ∷ []) fallback ≡ pre ++ (value ++ post)
unfolding translate fill replace_all
translate_filled catalogue key k value fallback pre post e h1 h2 h3 =
    rw (e, or_text-brace) (replace_from-one (k ++ b'}' ∷ []) value [] pre post h1 h2 h3)
