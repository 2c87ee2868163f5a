-- ===== src/LineHash/Laws.antt =====
-- What the translation of a line hash gives.
use mathlib.Core.Option
use own_pastebin.Prelude.{
  ℕ, true, ◌||◌, none, some, [], ◌∷◌, ◌++◌, ◌==◌, ◌≡◌, refl, sym, ◌∙◌, ap, arith, inl, inr,
  Option-cases, Bool-cases, is_some, Text, strip_prefix, is_digit, all, All, all_sound,
}
use own_pastebin.LineHash.{
  pre_id, is_range_char, match_lines, drop_spaces, to_prism, normalize_line_hash,
}

-- Digits, commas and dashes.
abbrev pub IsRange : Text → Type 0
IsRange = All (λ c. (is_digit c || c == b',' || c == b'-') ≡ true)

drop_spaces-IsRange : (s : Text) → All (λ c. is_range_char c ≡ true) s → IsRange (drop_spaces s)
unfolding drop_spaces
drop_spaces-IsRange [] h = tt
drop_spaces-IsRange (c ∷ s) (h, hs) = ground (arith, drop_spaces-IsRange s hs)

match_lines_sound : (h lines : Text) → match_lines h ≡ some lines → all is_range_char lines ≡ true
unfolding match_lines
match_lines_sound [] lines e = cc
match_lines_sound (c ∷ []) lines e = cc
match_lines_sound (c ∷ d ∷ s) lines e = ground arith

-- The form that Prism reads: `#pastebin-pre.` and digits, commas and dashes.
pub record IsPrismHash (hash : Text) : Type 0 where
  pub lines : Text
  pub spelled : hash ≡ b'#' ∷ (pre_id ++ b'.' ∷ lines)
  pub range : IsRange lines

to_prism-IsPrismHash : (h hash : Text) → to_prism (match_lines h) ≡ some hash → IsPrismHash hash
to_prism-IsPrismHash h hash e = elim (Option-cases (match_lines h)) [
  | inl missed ↦ cc (rw missed at e)
  | inr (lines, found) ↦ record {
    lines = drop_spaces lines;
    spelled = sym (Option.some-injective _ _ (rw found at e));
    range =
        drop_spaces-IsRange lines (all_sound is_range_char lines (match_lines_sound h lines found));
  }
]

normalize_prism : (hash : Text) → IsPrismHash hash → normalize_line_hash hash ≡ none
unfolding normalize_line_hash
normalize_prism hash p = rw p.spelled

-- A hash that is replaced is replaced by one in the form that Prism reads, and that one is left
-- alone when it comes back.
pub normalize_line_hash-IsPrismHash :
    (hash new : Text)
    → normalize_line_hash hash ≡ some new
    → IsPrismHash new × (normalize_line_hash new ≡ none)
normalize_line_hash-IsPrismHash hash new e =
    let prism = replaced hash new e in (prism, normalize_prism new prism)
  where
    replaced : (h n : Text) → normalize_line_hash h ≡ some n → IsPrismHash n
    replaced [] n p = unfold normalize_line_hash in cc
    replaced (c ∷ h) n p =
        unfold normalize_line_hash in
        elim (Bool-cases (is_some (strip_prefix (pre_id ++ b'.' ∷ []) h))) [
          | inl e ↦ cc (rw e at p)
          | inr e ↦ to_prism-IsPrismHash h n (rw e at p)
        ]

range_chars : (lines : Text) → IsRange lines → all is_range_char lines ≡ true
range_chars [] h = refl
range_chars (c ∷ s) (h, hs) = ground (arith, range_chars s hs)

drop_spaces_range : (lines : Text) → IsRange lines → drop_spaces lines ≡ lines
unfolding drop_spaces
drop_spaces_range [] h = refl
drop_spaces_range (c ∷ s) (h, hs) = ground (arith, drop_spaces_range s hs)

match_lines_range : (c : ℕ) (s : Text) → IsRange (c ∷ s) → match_lines (b'L' ∷ c ∷ s) ≡ some (c ∷ s)
unfolding match_lines
match_lines_range c s h = rw (range_chars (c ∷ s) h)

-- A GitLab hash `#L` with one or more digits, commas and dashes is translated, and the lines are
-- kept as they are.
pub normalize_line_hash_range :
    (c : ℕ) (s : Text)
    → IsRange (c ∷ s)
    → normalize_line_hash (b'#' ∷ b'L' ∷ c ∷ s) ≡ some (b'#' ∷ (pre_id ++ b'.' ∷ c ∷ s))
unfolding normalize_line_hash
normalize_line_hash_range c s h =
    ap to_prism (match_lines_range c s h)
    ∙ ap (λ t. some (b'#' ∷ (pre_id ++ b'.' ∷ t))) (drop_spaces_range (c ∷ s) h)
