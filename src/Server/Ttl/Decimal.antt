-- ===== src/Server/Ttl/Decimal.antt =====
-- A decimal text that the page or the server prints is read back by `strconv.ParseInt`.
use own_pastebin.Prelude.{
  ℕ, zero, suc, ◌+◌, ◌-◌, ◌*◌, ◌/◌, ◌%◌, ◌<◌, ◌≡◌, refl, sym, ◌∙◌, ap, arith, true, inl, inr,
  Bool-cases, some, [], ◌∷◌, ◌++◌, ltb, Text, all, is_digit, append_assoc,
}
use own_pastebin.Page.{digits_from, decimal}
use own_pastebin.Server.Ttl.{pos, half_word, digits_value, parse_digits, parse_int}

pub digits_value-append :
    (acc c : ℕ) (s : Text) → digits_value acc (s ++ c ∷ []) ≡ digits_value acc s * 10 + (c - b'0')
digits_value-append acc c [] = refl
digits_value-append acc c (d ∷ s) = digits_value-append (acc * 10 + (d - b'0')) c s

digits_from-tail :
    (fuel n : ℕ) (tail : Text) → digits_from fuel n tail ≡ digits_from fuel n [] ++ tail
unfolding digits_from
digits_from-tail zero n tail = refl
digits_from-tail (suc fuel) n tail = elim (Bool-cases (ltb n 10)) [
  | inl e ↦ rw e refl
  | inr e ↦ rw e (
      digits_from-tail fuel (n / 10) ((b'0' + n % 10) ∷ tail)
      ∙ (rw (digits_from-tail fuel (n / 10) ((b'0' + n % 10) ∷ []), append_assoc)))
]

digits_value-digits_from : (fuel n : ℕ) → n < fuel → digits_value 0 (digits_from fuel n []) ≡ n
unfolding digits_from
digits_value-digits_from zero n h = absurd (omega arith)
digits_value-digits_from (suc fuel) n h = elim (Bool-cases (ltb n 10)) [
  | inl e ↦ rw e (omega arith)
  | inr e ↦
      let less : n / 10 < fuel = ground arith in
      rw e (
        ap (digits_value 0) (digits_from-tail fuel (n / 10) ((b'0' + n % 10) ∷ []))
        ∙ digits_value-append 0 (b'0' + n % 10) (digits_from fuel (n / 10) [])
        ∙ (rw (digits_value-digits_from fuel (n / 10) less) (omega arith)))
]

-- Digits, at least one if the tail has one.
digits_from-digits :
    (fuel n : ℕ) (tail : Text)
    → all is_digit tail ≡ true
    → all is_digit (digits_from fuel n tail) ≡ true
unfolding digits_from
digits_from-digits zero n tail h = h
digits_from-digits (suc fuel) n tail h = elim (Bool-cases (ltb n 10)) [
  | inl e ↦ rw e (ground (arith, h))
  | inr e ↦ rw e (digits_from-digits fuel (n / 10) ((b'0' + n % 10) ∷ tail) (ground (arith, h)))
]

digits_from-cons :
    (fuel n : ℕ) (tail : Text) → n < fuel → (c : ℕ) × (s : Text) × (digits_from fuel n tail ≡ c ∷ s)
unfolding digits_from
digits_from-cons zero n tail h = absurd (omega arith)
digits_from-cons (suc fuel) n tail h = elim (Bool-cases (ltb n 10)) [
  | inl e ↦ (b'0' + n, tail, rw e)
  | inr e ↦
      let (c, s, q) = digits_from-cons fuel (n / 10) ((b'0' + n % 10) ∷ tail) (ground arith) in
      (c, s, rw e q)
]

-- What is printed: a digit and more digits, with the number as value.
pub decimal_digits :
    (n : ℕ)
    → (c : ℕ) × (s : Text) × (decimal n ≡ c ∷ s)
      × (all is_digit (c ∷ s) ≡ true)
      × (digits_value 0 (c ∷ s) ≡ n)
unfolding decimal
decimal_digits n =
    let (c, s, e) = digits_from-cons (suc n) n [] (omega arith) in
    (
      c,
      s,
      e,
      ap (all is_digit) (sym e) ∙ digits_from-digits (suc n) n [] refl,
      ap (digits_value 0) (sym e) ∙ digits_value-digits_from (suc n) n (omega arith),
    )

parse_int-digits :
    (c : ℕ) (s : Text)
    → all is_digit (c ∷ s) ≡ true
    → digits_value 0 (c ∷ s) < half_word
    → parse_int (c ∷ s) ≡ some (pos (digits_value 0 (c ∷ s)))
unfolding parse_int parse_digits
parse_int-digits c s h k = ground (arith, h, k)

-- A number below 2^63 that is printed in decimal is read back.
pub parse_int-decimal : (n : ℕ) → n < half_word → parse_int (decimal n) ≡ some (pos n)
parse_int-decimal n h =
    let (c, s, e, digits, value) = decimal_digits n in
    ap parse_int e ∙ parse_int-digits c s digits (omega (arith, value)) ∙ (rw value)
