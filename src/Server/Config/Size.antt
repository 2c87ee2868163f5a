-- ===== src/Server/Config/Size.antt =====
-- The limit on the size of a paste: what is read of a number with a unit, and of a text that is none.
use own_pastebin.Prelude.{
  ℕ, ◌*◌, ◌<◌, ◌≡◌, refl, sym, ◌∙◌, ap, arith, true, false, not, none, [], ◌∷◌, ◌++◌, map,
  append-nil, or_else, Text, codes, is_digit, is_lower, all,
}
use own_pastebin.Page.{decimal}
use own_pastebin.Server.Strings.{is_go_space, upper, trim_space, strip_suffix}
use own_pastebin.Server.Strings.Laws.{
  strip_suffix-append, strip_suffix-clash, strip_suffix-all, trim_both_same,
}
use own_pastebin.Server.Ttl.{ℤ, pos, word, half_word, to_int64}
use own_pastebin.Server.Ttl.Decimal.{decimal_digits}
use own_pastebin.Server.Config.{units_of_size, by_suffix, int_value, times, parse_size}
use own_pastebin.Server.Config.Number.{int_value-digits, int_value-other}
use own_pastebin.Server.Config.Time.{digits_solid, found, missed, times-fits}

-- The units that `parseSize` knows; a bare number is in bytes.
pub data SizeUnit : Type 0 where
  giga mega kilo bytes : SizeUnit

abbrev pub suffix : SizeUnit → Text
suffix giga = codes "GB"
suffix mega = codes "MB"
suffix kilo = codes "KB"
suffix bytes = []

abbrev pub factor : SizeUnit → ℕ
factor giga = 1024 * 1024 * 1024
factor mega = 1024 * 1024
factor kilo = 1024
factor bytes = 1

-- What `parseSize` makes of a text in capitals without white space.
abbrev clean_size : Text → ℤ
clean_size s = or_else (by_suffix units_of_size s) (int_value s)

upper_same : (s : Text) → all (λ c. not (is_lower c)) s ≡ true → map upper s ≡ s
upper_same [] h = refl
upper_same (c ∷ s) h = ground (arith, upper_same s, h)

digits_upper :
    (s u : Text)
    → all is_digit s ≡ true
    → all (λ c. not (is_lower c)) u ≡ true
    → all (λ c. not (is_lower c)) (s ++ u) ≡ true
digits_upper [] u h k = k
digits_upper (c ∷ s) u h k = ground (arith, digits_upper s u, h, k)

parse_size-cleaned :
    (s : Text)
    → all (λ c. not (is_lower c)) s ≡ true
    → all (λ c. not (is_go_space c)) s ≡ true
    → parse_size s ≡ clean_size s
unfolding parse_size
parse_size-cleaned s h k =
    ap (λ t. clean_size (trim_space t)) (upper_same s h)
    ∙ ap clean_size (trim_both_same is_go_space s k)

unitless :
    (s : Text)
    → strip_suffix (codes "GB") s ≡ none
    → strip_suffix (codes "MB") s ≡ none
    → strip_suffix (codes "KB") s ≡ none
    → clean_size s ≡ int_value s
unfolding by_suffix
unitless s g m k =
    ap (λ o. or_else o (int_value s))
      (missed (codes "GB") s (factor giga)
          ((codes "MB", factor mega) ∷ (codes "KB", factor kilo) ∷ []) g
        ∙ missed (codes "MB") s (factor mega) ((codes "KB", factor kilo) ∷ []) m
        ∙ missed (codes "KB") s (factor kilo) [] k)

times_one : (n : ℕ) → n < half_word → pos n ≡ times (pos n) 1
unfolding times to_int64
times_one n h = ground (arith, h)

-- The number and the unit are told apart.
clean_size-unit :
    (s : Text) (u : SizeUnit) (n : ℕ)
    → all is_digit s ≡ true
    → int_value s ≡ pos n
    → n < half_word
    → clean_size (s ++ suffix u) ≡ times (pos n) (factor u)
clean_size-unit s giga n h e k =
    ap (λ o. or_else o (int_value (s ++ codes "GB")))
      (found (codes "GB") (s ++ codes "GB") s (factor giga)
        ((codes "MB", factor mega) ∷ (codes "KB", factor kilo) ∷ [])
        (strip_suffix-append s (codes "GB")))
    ∙ ap (λ z. times z (factor giga)) e
clean_size-unit s mega n h e k =
    ap (λ o. or_else o (int_value (s ++ codes "MB")))
      (missed (codes "GB") (s ++ codes "MB") (factor giga)
          ((codes "MB", factor mega) ∷ (codes "KB", factor kilo) ∷ [])
          (strip_suffix-clash s (codes "GB") (codes "MB") (λ r. refl))
        ∙ found (codes "MB") (s ++ codes "MB") s (factor mega) ((codes "KB", factor kilo) ∷ [])
            (strip_suffix-append s (codes "MB")))
    ∙ ap (λ z. times z (factor mega)) e
clean_size-unit s kilo n h e k =
    ap (λ o. or_else o (int_value (s ++ codes "KB")))
      (missed (codes "GB") (s ++ codes "KB") (factor giga)
          ((codes "MB", factor mega) ∷ (codes "KB", factor kilo) ∷ [])
          (strip_suffix-clash s (codes "GB") (codes "KB") (λ r. refl))
        ∙ missed (codes "MB") (s ++ codes "KB") (factor mega) ((codes "KB", factor kilo) ∷ [])
            (strip_suffix-clash s (codes "MB") (codes "KB") (λ r. refl))
        ∙ found (codes "KB") (s ++ codes "KB") s (factor kilo) []
            (strip_suffix-append s (codes "KB")))
    ∙ ap (λ z. times z (factor kilo)) e
clean_size-unit s bytes n h e k =
    ap clean_size (append-nil s)
    ∙ unitless s (strip_suffix-all is_digit s (codes "GB") b'B' (b'G' ∷ []) refl refl h)
        (strip_suffix-all is_digit s (codes "MB") b'B' (b'M' ∷ []) refl refl h)
        (strip_suffix-all is_digit s (codes "KB") b'B' (b'K' ∷ []) refl refl h)
    ∙ e
    ∙ times_one n k

suffix_upper : (u : SizeUnit) → all (λ c. not (is_lower c)) (suffix u) ≡ true
suffix_upper giga = refl
suffix_upper mega = refl
suffix_upper kilo = refl
suffix_upper bytes = refl

suffix_solid : (u : SizeUnit) → all (λ c. not (is_go_space c)) (suffix u) ≡ true
unfolding is_go_space
suffix_solid giga = refl
suffix_solid mega = refl
suffix_solid kilo = refl
suffix_solid bytes = refl

-- A number with a unit is read as so many of the unit, as far as they fit into an int64.
pub parse_size-print :
    (n : ℕ) (u : SizeUnit)
    → n < half_word
    → n * factor u < half_word
    → parse_size (decimal n ++ suffix u) ≡ pos (n * factor u)
parse_size-print n u k h =
    let (c, s, e, digits, value) = decimal_digits n in
    let number : int_value (c ∷ s) ≡ pos n =
      int_value-digits c s digits (omega (arith, value)) ∙ ap pos value in
    ap (λ t. parse_size (t ++ suffix u)) e
    ∙ parse_size-cleaned (c ∷ s ++ suffix u)
        (digits_upper (c ∷ s) (suffix u) digits (suffix_upper u))
        (digits_solid (c ∷ s) (suffix u) digits (suffix_solid u))
    ∙ clean_size-unit (c ∷ s) u n digits number k
    ∙ times-fits n (factor u) h

-- A unit that the server does not know: no digit in front, no white space in it, and the whole in
-- capitals does not end in a unit that it knows.
pub record IsUnknown (n x : ℕ) (w : Text) : Type 0 where
  pub no_digit : is_digit x ≡ false
  pub solid : all (λ c. not (is_go_space c)) (x ∷ w) ≡ true
  pub not_giga : strip_suffix (codes "GB") (decimal n ++ map upper (x ∷ w)) ≡ none
  pub not_mega : strip_suffix (codes "MB") (decimal n ++ map upper (x ∷ w)) ≡ none
  pub not_kilo : strip_suffix (codes "KB") (decimal n ++ map upper (x ∷ w)) ≡ none

upper-is_digit : (x : ℕ) → is_digit x ≡ false → is_digit (upper x) ≡ false
upper-is_digit x h = ground (arith, h)

upper-is_go_space : (c : ℕ) → is_go_space c ≡ false → is_go_space (upper c) ≡ false
unfolding is_go_space
upper-is_go_space c h = ground (arith, h)

solid_upper :
    (s : Text)
    → all (λ c. not (is_go_space c)) s ≡ true
    → all (λ c. not (is_go_space c)) (map upper s) ≡ true
solid_upper [] h = refl
solid_upper (c ∷ s) h = ground (arith, h, upper-is_go_space c, solid_upper s)

upper_digits : (s u : Text) → all is_digit s ≡ true → map upper (s ++ u) ≡ s ++ map upper u
upper_digits [] u h = refl
upper_digits (c ∷ s) u h = ground (arith, h, upper_digits s u)

-- A size in a unit that the server does not know is read as 0, if the number is below 2^64.
pub parse_size-other :
    (n x : ℕ) (w : Text) → n < word → IsUnknown n x w → parse_size (decimal n ++ x ∷ w) ≡ pos 0
unfolding parse_size
parse_size-other n x w b h =
    let (c, s, e, digits, value) = decimal_digits n in
    let u : Text = map upper (x ∷ w) in
    ap (λ t. clean_size (trim_space t))
      (ap (λ t. map upper (t ++ x ∷ w)) e ∙ upper_digits (c ∷ s) (x ∷ w) digits)
    ∙ ap clean_size (
        trim_both_same is_go_space (c ∷ s ++ u)
          (digits_solid (c ∷ s) u digits (solid_upper (x ∷ w) h.solid)))
    ∙ unitless (c ∷ s ++ u) (ap (λ t. strip_suffix (codes "GB") (t ++ u)) (sym e) ∙ h.not_giga)
        (ap (λ t. strip_suffix (codes "MB") (t ++ u)) (sym e) ∙ h.not_mega)
        (ap (λ t. strip_suffix (codes "KB") (t ++ u)) (sym e) ∙ h.not_kilo)
    ∙ int_value-other (upper x) (map upper w) (upper-is_digit x h.no_digit) c s digits
        (omega (arith, value))
