-- ===== src/Server/Config/Time.antt =====
-- Durations and sizes: what is read of a number with a unit, and of a text that is none.
use own_pastebin.Prelude.{
  ℕ, ◌*◌, ◌<◌, ◌≡◌, ◌⊎◌, inl, inr, refl, sym, ◌∙◌, ap, arith, Bool, true, false, not, ◌&&◌, none,
  some, List, [], ◌∷◌, ◌++◌, ◌==◌, map, append-nil, or_else, Text, codes, text_eq, text_eq_sound,
  Bool-cases, is_digit, is_lower, is_upper, all,
}
use own_pastebin.Page.{decimal}
use own_pastebin.Server.Strings.{is_go_space, lower, trim_space, strip_suffix}
use own_pastebin.Server.Strings.Laws.{
  strip_suffix-append, strip_suffix-other, strip_suffix-all, trim_both_same,
}
use own_pastebin.Server.Ttl.{
  ℤ, pos, word, half_word, nanoseconds, to_int64, digits_value, resolve_ttl,
}
use own_pastebin.Server.Ttl.Decimal.{decimal_digits}
use own_pastebin.Server.Config.Number.{int_value-digits, int_value-other}
use own_pastebin.Server.Config.{
  hour, units_of_time, by_suffix, int_value, magnitude, times, cleaned, in_seconds, parse_time,
}

-- The units that `parseTime` knows; a bare number is in seconds.
pub data TimeUnit : Type 0 where
  months days hours seconds bare : TimeUnit

abbrev pub suffix : TimeUnit → Text
suffix months = codes "mo"
suffix days = codes "d"
suffix hours = codes "h"
suffix seconds = codes "s"
suffix bare = []

abbrev pub span : TimeUnit → ℕ
span months = 30 * 24 * hour
span days = 24 * hour
span hours = hour
span seconds = nanoseconds
span bare = nanoseconds

abbrev pub not_bare : TimeUnit → Bool
not_bare months = true
not_bare days = true
not_bare hours = true
not_bare seconds = true
not_bare bare = false

-- Cleaning leaves a text alone that has no white space and no capital letter.
lower_same : (s : Text) → all (λ c. not (is_upper c)) s ≡ true → map lower s ≡ s
lower_same [] h = refl
lower_same (c ∷ s) h = ground (arith, lower_same s, h)

cleaned_same :
    (s : Text)
    → all (λ c. not (is_upper c)) s ≡ true
    → all (λ c. not (is_go_space c)) s ≡ true
    → cleaned s ≡ s
cleaned_same s h k = ap trim_space (lower_same s h) ∙ trim_both_same is_go_space s k

digit-is_go_space : (c : ℕ) → is_digit c ≡ true → is_go_space c ≡ false
unfolding is_go_space
digit-is_go_space c h = ground (arith, h)

digits_lower :
    (s u : Text)
    → all is_digit s ≡ true
    → all (λ c. not (is_upper c)) u ≡ true
    → all (λ c. not (is_upper c)) (s ++ u) ≡ true
digits_lower [] u h k = k
digits_lower (c ∷ s) u h k = ground (arith, digits_lower s u, h, k)

pub digits_solid :
    (s u : Text)
    → all is_digit s ≡ true
    → all (λ c. not (is_go_space c)) u ≡ true
    → all (λ c. not (is_go_space c)) (s ++ u) ≡ true
digits_solid [] u h k = k
digits_solid (c ∷ s) u h k = ground (arith, digits_solid s u, digit-is_go_space c, h, k)

pub found :
    (u s t : Text) (k : ℕ) (us : List (Text × ℕ))
    → strip_suffix u s ≡ some t
    → by_suffix ((u, k) ∷ us) s ≡ some (times (int_value t) k)
unfolding by_suffix
found u s t k us h = rw (h, by_suffix)

pub missed :
    (u s : Text) (k : ℕ) (us : List (Text × ℕ))
    → strip_suffix u s ≡ none
    → by_suffix ((u, k) ∷ us) s ≡ by_suffix us s
unfolding by_suffix
missed u s k us h = rw (h, by_suffix)

-- What `parseTime` makes of a cleaned text.
abbrev pub clean_time : Text → ℤ
clean_time s = or_else (by_suffix units_of_time s) (in_seconds s)

unitless :
    (s : Text)
    → strip_suffix (codes "mo") s ≡ none
    → strip_suffix (codes "d") s ≡ none
    → strip_suffix (codes "h") s ≡ none
    → clean_time s ≡ in_seconds s
unfolding by_suffix
unitless s m d h =
    ap (λ o. or_else o (in_seconds s))
      (missed (codes "mo") s (30 * 24 * hour) ((codes "d", 24 * hour) ∷ (codes "h", hour) ∷ []) m
        ∙ missed (codes "d") s (24 * hour) ((codes "h", hour) ∷ []) d
        ∙ missed (codes "h") s hour [] h)

-- The number and the unit are told apart.
clean_time-unit :
    (s : Text) (u : TimeUnit)
    → (all is_digit s ≡ true) ⊎ (not_bare u ≡ true)
    → clean_time (s ++ suffix u) ≡ times (int_value s) (span u)
clean_time-unit s months h =
    ap (λ o. or_else o (in_seconds (s ++ codes "mo")))
      (found (codes "mo") (s ++ codes "mo") s (30 * 24 * hour)
        ((codes "d", 24 * hour) ∷ (codes "h", hour) ∷ []) (strip_suffix-append s (codes "mo")))
clean_time-unit s days h =
    ap (λ o. or_else o (in_seconds (s ++ codes "d")))
      (missed (codes "mo") (s ++ codes "d") (30 * 24 * hour)
          ((codes "d", 24 * hour) ∷ (codes "h", hour) ∷ [])
          (strip_suffix-other s (codes "mo") b'd' b'o' (b'm' ∷ []) refl refl)
        ∙ found (codes "d") (s ++ codes "d") s (24 * hour) ((codes "h", hour) ∷ [])
            (strip_suffix-append s (codes "d")))
clean_time-unit s hours h =
    ap (λ o. or_else o (in_seconds (s ++ codes "h")))
      (missed (codes "mo") (s ++ codes "h") (30 * 24 * hour)
          ((codes "d", 24 * hour) ∷ (codes "h", hour) ∷ [])
          (strip_suffix-other s (codes "mo") b'h' b'o' (b'm' ∷ []) refl refl)
        ∙ missed (codes "d") (s ++ codes "h") (24 * hour) ((codes "h", hour) ∷ [])
            (strip_suffix-other s (codes "d") b'h' b'd' [] refl refl)
        ∙ found (codes "h") (s ++ codes "h") s hour [] (strip_suffix-append s (codes "h")))
clean_time-unit s seconds h =
    unitless (s ++ codes "s") (strip_suffix-other s (codes "mo") b's' b'o' (b'm' ∷ []) refl refl)
      (strip_suffix-other s (codes "d") b's' b'd' [] refl refl)
      (strip_suffix-other s (codes "h") b's' b'h' [] refl refl)
    ∙ ap (λ o. times (int_value (or_else o (s ++ codes "s"))) nanoseconds)
        (strip_suffix-append s (codes "s"))
clean_time-unit s bare (inr h) = cc
clean_time-unit s bare (inl h) =
    ap clean_time (append-nil s)
    ∙ unitless s (strip_suffix-all is_digit s (codes "mo") b'o' (b'm' ∷ []) refl refl h)
        (strip_suffix-all is_digit s (codes "d") b'd' [] refl refl h)
        (strip_suffix-all is_digit s (codes "h") b'h' [] refl refl h)
    ∙ ap (λ o. times (int_value (or_else o s)) nanoseconds)
        (strip_suffix-all is_digit s (codes "s") b's' [] refl refl h)

suffix_lower : (u : TimeUnit) → all (λ c. not (is_upper c)) (suffix u) ≡ true
suffix_lower months = refl
suffix_lower days = refl
suffix_lower hours = refl
suffix_lower seconds = refl
suffix_lower bare = refl

suffix_solid : (u : TimeUnit) → all (λ c. not (is_go_space c)) (suffix u) ≡ true
unfolding is_go_space
suffix_solid months = refl
suffix_solid days = refl
suffix_solid hours = refl
suffix_solid seconds = refl
suffix_solid bare = refl

zero_time : clean_time (codes "0") ≡ pos 0
unfolding by_suffix strip_suffix int_value magnitude times to_int64
zero_time = refl

-- The test for "0" does not matter: it reads as 0.
parse_time-cleaned :
    (v : Text) (c : ℕ) (s : Text) → cleaned v ≡ c ∷ s → parse_time v ≡ clean_time (c ∷ s)
unfolding parse_time
parse_time-cleaned v c s e = elim (Bool-cases (text_eq (c ∷ s) (codes "0"))) [
  | inl q ↦ rw (e, q) (sym (ap clean_time (text_eq_sound (c ∷ s) (codes "0") q) ∙ zero_time))
  | inr q ↦ rw (e, q) refl
]

pub parse_time-digits :
    (c : ℕ) (s : Text) (u : TimeUnit)
    → all is_digit (c ∷ s) ≡ true
    → digits_value 0 (c ∷ s) < half_word
    → parse_time (c ∷ s ++ suffix u) ≡ times (pos (digits_value 0 (c ∷ s))) (span u)
parse_time-digits c s u h k =
    parse_time-cleaned (c ∷ s ++ suffix u) c (s ++ suffix u) (
      cleaned_same (c ∷ s ++ suffix u) (digits_lower (c ∷ s) (suffix u) h (suffix_lower u))
        (digits_solid (c ∷ s) (suffix u) h (suffix_solid u)))
    ∙ clean_time-unit (c ∷ s) u (inl h)
    ∙ ap (λ z. times z (span u)) (int_value-digits c s h k)

pub times-fits : (n k : ℕ) → n * k < half_word → times (pos n) k ≡ pos (n * k)
unfolding times to_int64
times-fits n k h = ground (arith, h)

-- A number with a unit is read as so many of the unit, as far as they fit into an int64.
pub parse_time-print :
    (n : ℕ) (u : TimeUnit)
    → n < half_word
    → n * span u < half_word
    → parse_time (decimal n ++ suffix u) ≡ pos (n * span u)
parse_time-print n u k h =
    let (c, s, e, digits, value) = decimal_digits n in
    ap (λ t. parse_time (t ++ suffix u)) e
    ∙ parse_time-digits c s u digits (omega (arith, value))
    ∙ (rw value (times-fits n (span u) h))

letter-is_go_space : (x : ℕ) → is_lower x ≡ true → is_go_space x ≡ false
unfolding is_go_space
letter-is_go_space x h = ground (arith, h)

-- Letters that are no unit and that no unit ends in.
abbrev pub is_other_letter : ℕ → Bool
is_other_letter x =
    is_lower x && not (b'o' == x) && not (b'd' == x) && not (b'h' == x) && not (b's' == x)

clean_time-other :
    (c : ℕ) (s : Text) (x : ℕ)
    → all is_digit (c ∷ s) ≡ true
    → digits_value 0 (c ∷ s) < word
    → is_other_letter x ≡ true
    → clean_time (c ∷ s ++ x ∷ []) ≡ pos 0
clean_time-other c s x h b k =
    unitless (c ∷ s ++ x ∷ [])
      (strip_suffix-other (c ∷ s) (codes "mo") x b'o' (b'm' ∷ []) refl (ground (arith, k)))
      (strip_suffix-other (c ∷ s) (codes "d") x b'd' [] refl (ground (arith, k)))
      (strip_suffix-other (c ∷ s) (codes "h") x b'h' [] refl (ground (arith, k)))
    ∙ ap (λ o. times (int_value (or_else o (c ∷ s ++ x ∷ []))) nanoseconds)
        (strip_suffix-other (c ∷ s) (codes "s") x b's' [] refl (ground (arith, k)))
    ∙ ap (λ z. times z nanoseconds) (int_value-other x [] (ground (arith, k)) c s h b)
    ∙ times-fits 0 nanoseconds (omega arith)

pub letter_solid :
    (x : ℕ) → is_other_letter x ≡ true → all (λ c. not (is_go_space c)) (x ∷ []) ≡ true
letter_solid x h = ground (arith, h, letter-is_go_space x)

-- A limit in a unit that the server does not know, as `2w` or `30m`, is read as no limit, if the
-- number is below 2^64.
pub unknown_unit-resolve_ttl :
    (n x : ℕ) (requested : ℤ)
    → n < word
    → is_other_letter x ≡ true
    → resolve_ttl (parse_time (decimal n ++ x ∷ [])) requested ≡ requested
unfolding resolve_ttl
unknown_unit-resolve_ttl n x requested b h =
    let (c, s, e, digits, value) = decimal_digits n in
    let clean : cleaned (c ∷ s ++ x ∷ []) ≡ c ∷ s ++ x ∷ [] =
      cleaned_same (c ∷ s ++ x ∷ []) (digits_lower (c ∷ s) (x ∷ []) digits (ground (arith, h)))
        (digits_solid (c ∷ s) (x ∷ []) digits (letter_solid x h)) in
    let zero : parse_time (decimal n ++ x ∷ []) ≡ pos 0 =
      ap (λ t. parse_time (t ++ x ∷ [])) e
      ∙ parse_time-cleaned (c ∷ s ++ x ∷ []) c (s ++ x ∷ []) clean
      ∙ clean_time-other c s x digits (omega (arith, value)) h in
    ap (λ m. resolve_ttl m requested) zero
