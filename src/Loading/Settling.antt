-- ===== src/Loading/Settling.antt =====
-- The requests for languages come to an end: without further clicks, a file that fails is followed
-- by at most one request more, the one for English.
use own_pastebin.Prelude.{
  ℕ, suc, ◌+◌, ◌*◌, length, ◌≤◌, List, [], ◌∷◌, ◌++◌, ◌≡◌, refl, arith, Bool-cases, inl, inr,
  if◌then◌else◌, Text, text_eq,
}
use own_pastebin.I18n.Translate.{Catalogue}
use own_pastebin.I18n.Language.{default_lang}
use own_pastebin.Expiry.{Seconds}
use own_pastebin.Loading.{Client, loaded, load_failed, load_language}
use own_pastebin.Loading.Laws.{Ends, here, later}

-- A request for another language than English may be followed by one for English.
abbrev cost : Text → ℕ
cost lang = if text_eq lang default_lang then 1 else 2

unfoldable pub total : List Text → ℕ
total [] = 0
total (l ∷ ls) = cost l + total ls

cost_pos : (lang : Text) → 1 ≤ cost lang
cost_pos lang = ground arith

total_bound : (ls : List Text) → total ls ≤ 2 * length ls
unfolding total
total_bound [] = omega arith
total_bound (l ∷ ls) = ground (arith, total_bound ls)

total-append : (ls : List Text) (lang : Text) → total (ls ++ lang ∷ []) ≡ total ls + cost lang
unfolding total
total-append [] lang = omega arith
total-append (l ∷ ls) lang = omega (arith, total-append ls lang)

total-Ends :
    {lang : Text} {ls rest : List Text} → Ends lang ls rest → total ls ≡ cost lang + total rest
unfolding total
total-Ends here = refl
total-Ends (later {l} e) = omega (arith, total-Ends e)

total-failed :
    (lang : Text) (c : Client)
    → suc (total (load_failed lang c).loading) ≤ cost lang + total c.loading
unfolding load_failed load_language
total-failed lang c = elim (Bool-cases (text_eq lang default_lang)) [
  | inl e ↦ rw e (omega arith)
  | inr e ↦ rw (e, total-append c.loading default_lang) (omega arith)
]

module _ (number : Text → Seconds) where
  -- The responses that come while nobody clicks, counted.
  pub data Settles : ℕ → Client → Client → Type 0 where
    no_more : (c : Client) → Settles 0 c c
    arrived :
        (n : ℕ) (lang : Text) (rest : List Text) (translations : Catalogue) (c d : Client)
        → Ends lang c.loading rest
        → Settles n (loaded number lang translations (record c { loading = rest })) d
        → Settles (suc n) c d
    failed :
        (n : ℕ) (lang : Text) (rest : List Text) (c d : Client)
        → Ends lang c.loading rest
        → Settles n (load_failed lang (record c { loading = rest })) d
        → Settles (suc n) c d

  responses_within : (n : ℕ) (c d : Client) → Settles n c d → n + total d.loading ≤ total c.loading
  unfolding loaded
  responses_within _ _ _ (no_more c) = omega arith
  responses_within _ _ _ (arrived n lang rest translations c d e r) =
      omega (arith, total-Ends e, cost_pos lang, responses_within n _ d r)
  responses_within _ _ _ (failed n lang rest c d e r) = omega (
    arith,
    total-Ends e,
    total-failed lang (record c { loading = rest }),
    responses_within n _ d r,
  )

  -- While nobody clicks, at most two responses come for each request that is under way, those to
  -- the requests for English that follow a failure included: the loading does not go on for ever.
  pub responses_bounded : (n : ℕ) (c d : Client) → Settles n c d → n ≤ 2 * length c.loading
  responses_bounded n c d r = omega (arith, responses_within n c d r, total_bound c.loading)
