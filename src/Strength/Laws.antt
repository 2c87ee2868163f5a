-- ===== src/Strength/Laws.antt =====
-- Bounds and order of the password score.
use own_pastebin.Prelude.{
  ℕ, ◌+◌, ◌≤◌, ◌<◌, Bool, true, ◌||◌, [], ◌∷◌, ◌++◌, ◌≡◌, ◌↔◌, refl, arith, length, length-append,
  Text, any, any-append, is_digit, is_upper, is_lower,
}
use own_pastebin.Strength.{is_other, point, score, max_score}

score-le : (pwd : Text) → score pwd ≤ max_score
unfolding score
score-le pwd = ground arith

point-or : (a b : Bool) → point a ≤ point (a || b)
point-or a b = ground arith

point-append : (p : ℕ → Bool) (s t : Text) → point (any p s) ≤ point (any p (s ++ t))
point-append p s t = rw (any-append p s t) (point-or (any p s) (any p t))

-- Typing more behind a password never lowers its score.
pub score_mono : (pwd more : Text) → score pwd ≤ score (pwd ++ more)
unfolding score
score_mono pwd more = omega (
  arith,
  length-append pwd more,
  point-append is_upper pwd more,
  point-append is_lower pwd more,
  point-append is_digit pwd more,
  point-append is_other pwd more,
)

first_point :
    (c : ℕ) (s : Text)
    → 0
      < point (any is_upper (c ∷ s))
        + point (any is_lower (c ∷ s))
        + point (any is_digit (c ∷ s))
        + point (any is_other (c ∷ s))
first_point c s = ground arith

-- The score is 0, which clears the meter, exactly for the empty password.
pub score-eq-zero : (pwd : Text) → (score pwd ≡ 0) ↔ (pwd ≡ [])
unfolding score
score-eq-zero [] = (λ _. refl, λ _. omega arith)
score-eq-zero (c ∷ s) = (λ e. absurd (omega (arith, first_point c s)), λ e. cc)

-- The full score of 7 is reached exactly by a password of at least 24 code units with an upper
-- case letter, a lower case letter, a digit and another character.
pub score-eq-max :
    (pwd : Text)
    → (score pwd ≡ max_score) ↔ (
        (24 ≤ length pwd)
        × (any is_upper pwd ≡ true)
        × (any is_lower pwd ≡ true)
        × (any is_digit pwd ≡ true)
        × (any is_other pwd ≡ true))
unfolding score
score-eq-max pwd = ground arith
