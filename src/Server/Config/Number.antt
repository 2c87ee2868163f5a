-- ===== src/Server/Config/Number.antt =====
-- The numbers in the settings: what `strconv` gives where its error is dropped.
use own_pastebin.Prelude.{
  ℕ, ◌+◌, ◌-◌, ◌*◌, ◌<◌, ◌≤◌, ◌≡◌, arith, true, false, none, some, [], ◌∷◌, ◌++◌, Text, is_digit,
  all, refl, ap, ◌∙◌,
}
use own_pastebin.Server.Ttl.{pos, word, half_word, digits_value}
use own_pastebin.Server.Config.{magnitude, int_value, clamped, clamped_or_zero}

-- More digits make no smaller number.
le-digits_value : (value : ℕ) (s : Text) → value ≤ digits_value value s
le-digits_value value [] = omega arith
le-digits_value value (c ∷ s) = omega (arith, le-digits_value (value * 10 + (c - b'0')) s)

int_value-digit :
    (c : ℕ) (s : Text)
    → is_digit c ≡ true
    → int_value (c ∷ s) ≡ clamped_or_zero false (magnitude 0 (c ∷ s))
unfolding int_value
int_value-digit c s h = ground (arith, h)

module _ (x : ℕ) (t : Text) (h : is_digit x ≡ false) where
  -- Digits of a number in range, and then a character that is no digit.
  magnitude-other :
      (value : ℕ) (s : Text)
      → all is_digit s ≡ true
      → digits_value value s < word
      → magnitude value (s ++ x ∷ t) ≡ none
  unfolding magnitude
  magnitude-other value [] d k = rw h refl
  magnitude-other value (c ∷ s) d k =
      let next = value * 10 + (c - b'0') in
      ground (arith, d, k, le-digits_value next s, magnitude-other next s)

  pub int_value-other :
      (c : ℕ) (s : Text)
      → all is_digit (c ∷ s) ≡ true
      → digits_value 0 (c ∷ s) < word
      → int_value (c ∷ s ++ x ∷ t) ≡ pos 0
  int_value-other c s d k =
      int_value-digit c (s ++ x ∷ t) (ground (arith, d))
      ∙ ap (clamped_or_zero false) (magnitude-other 0 (c ∷ s) d k)

magnitude-digits :
    (value : ℕ) (s : Text)
    → all is_digit s ≡ true
    → digits_value value s < word
    → magnitude value s ≡ some (digits_value value s)
unfolding magnitude
magnitude-digits value [] d k = refl
magnitude-digits value (c ∷ s) d k =
    let next = value * 10 + (c - b'0') in
    ground (arith, d, k, le-digits_value next s, magnitude-digits next s)

in_range : (n : ℕ) → n < half_word → clamped false n ≡ pos n
in_range n h = ground (arith, h)

pub int_value-digits :
    (c : ℕ) (s : Text)
    → all is_digit (c ∷ s) ≡ true
    → digits_value 0 (c ∷ s) < half_word
    → int_value (c ∷ s) ≡ pos (digits_value 0 (c ∷ s))
int_value-digits c s d k =
    int_value-digit c s (ground (arith, d))
    ∙ ap (clamped_or_zero false) (magnitude-digits 0 (c ∷ s) d (omega (arith, k)))
    ∙ in_range (digits_value 0 (c ∷ s)) k
