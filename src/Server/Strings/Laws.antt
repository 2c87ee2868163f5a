-- ===== src/Server/Strings/Laws.antt =====
-- Suffixes and trimming.
use mathlib.Core.List
use mathlib.Core.List.{reverse, reverse-append, reverse-reverse}
use own_pastebin.Prelude.{
  ℕ, ◌≡◌, refl, ◌∙◌, ap, arith, Bool, true, false, not, ◌&&◌, none, some, [], ◌∷◌, ◌++◌, ◌==◌,
  ==_iff, inl, inr, Bool-cases, Text, strip_prefix, strip_prefix-append, all,
}
use own_pastebin.Server.Strings.{reversed, strip_suffix, trim_left, trim_both}

pub strip_suffix-append : (s u : Text) → strip_suffix u (s ++ u) ≡ some s
unfolding strip_suffix
strip_suffix-append s u =
    ap (λ t. reversed (strip_prefix (reverse u) t)) (reverse-append s u)
    ∙ ap reversed (strip_prefix-append (reverse u) (reverse s))
    ∙ ap some (reverse-reverse s)

-- A text that ends in another character has not the suffix.
pub strip_suffix-other :
    (s u : Text) (c d : ℕ) (r : Text)
    → reverse u ≡ d ∷ r
    → (d == c) ≡ false
    → strip_suffix u (s ++ c ∷ []) ≡ none
unfolding strip_suffix
strip_suffix-other s u c d r e h =
    ap (λ t. reversed (strip_prefix (reverse u) t)) (reverse-append s (c ∷ [])) ∙ (rw (e, h))

-- Nor one that ends in a text which does not end in the suffix.
pub strip_suffix-clash :
    (s u w : Text)
    → ((r : Text) → strip_prefix (reverse u) (reverse w ++ r) ≡ none)
    → strip_suffix u (s ++ w) ≡ none
unfolding strip_suffix
strip_suffix-clash s u w h =
    ap (λ t. reversed (strip_prefix (reverse u) t)) (reverse-append s w)
    ∙ ap reversed (h (reverse s))

pub all-append : (p : ℕ → Bool) (s t : Text) → all p (s ++ t) ≡ (all p s && all p t)
all-append p [] t = refl
all-append p (c ∷ s) t = ground (arith, all-append p s t)

pub all-reverse : (p : ℕ → Bool) (s : Text) → all p s ≡ true → all p (reverse s) ≡ true
all-reverse p s h = go s [] h refl
  where
    go : (s t : Text) → all p s ≡ true → all p t ≡ true → all p (List.reverse_aux s t) ≡ true
    go [] t h k = k
    go (c ∷ s) t h k = go s (c ∷ t) (ground (arith, h)) (ground (arith, h, k))

different : (p : ℕ → Bool) (d c : ℕ) → p d ≡ false → p c ≡ true → (d == c) ≡ false
different p d c h k = elim (Bool-cases (d == c)) [
  | inl q ↦ cc (h, k, ap p ((==_iff d c).0 q))
  | inr q ↦ q
]

-- Nor has a text all whose characters pass a test that the suffix's last one fails.
pub strip_suffix-all :
    (p : ℕ → Bool) (s u : Text) (d : ℕ) (r : Text)
    → reverse u ≡ d ∷ r
    → p d ≡ false
    → all p s ≡ true
    → strip_suffix u s ≡ none
unfolding strip_suffix
strip_suffix-all p s u d r e h k = rw e (go (reverse s) (all-reverse p s k))
  where
    go : (t : Text) → all p t ≡ true → reversed (strip_prefix (d ∷ r) t) ≡ none
    go [] a = refl
    go (c ∷ t) a = rw (different p d c h (ground (arith, a))) refl

trim_left_same : (p : ℕ → Bool) (s : Text) → all (λ c. not (p c)) s ≡ true → trim_left p s ≡ s
trim_left_same p [] h = refl
trim_left_same p (c ∷ s) h = ground (arith, h)

-- Trimming leaves a text alone that has none of the characters.
pub trim_both_same : (p : ℕ → Bool) (s : Text) → all (λ c. not (p c)) s ≡ true → trim_both p s ≡ s
trim_both_same p s h =
    rw
      (
        trim_left_same p s h,
        trim_left_same p (reverse s) (all-reverse (λ c. not (p c)) s h),
        reverse-reverse s,
      )
      refl
