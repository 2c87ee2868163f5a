-- ===== src/Server/Config/Options.antt =====
-- The lifetimes that the menu offers are numbers.
use mathlib.Core.Option
use own_pastebin.Prelude.{
  ℕ, ◌≡◌, refl, subst, ap, Option, none, some, List, [], ◌∷◌, All, Text, Bool-cases, inl, inr,
  text_eq,
}
use own_pastebin.Server.Strings.{trim_space, trim_both}
use own_pastebin.Server.Ttl.{
  ℤ, pos, negsuc, seconds, parse_int, parse_digits, requested_of, requested_ttl,
}
use own_pastebin.Server.Config.{
  ExpiryOption, option_if, parts_of, parse_entry, kept_options, split, is_quote, parse_expiry_times,
  default_expiry_times, expiry_times,
}

-- The handler takes the value, where it comes to it as it is, for a lifetime of so many seconds.
abbrev pub IsOffered : ExpiryOption → Type 0
IsOffered o =
    (n : ℕ) × (parse_int o.value ≡ some (pos n)) × (requested_ttl o.value ≡ some (seconds n))

pub requested_ttl-number :
    (value : Text) (n : ℕ) → parse_int value ≡ some (pos n) → requested_ttl value ≡ some (seconds n)
unfolding requested_ttl parse_int
requested_ttl-number [] n h = cc h
requested_ttl-number (c ∷ s) n h = ap requested_of h

offered :
    (label value : Text) (z : Option ℤ) (o : ExpiryOption)
    → parse_int value ≡ z
    → option_if label value z ≡ some o
    → IsOffered o
offered label value none o e h = cc h
offered label value (some (negsuc n)) o e h = cc h
offered label value (some (pos n)) o e h =
    subst IsOffered (Option.some-injective _ _ h) (n, e, requested_ttl-number value n e)

parts_of-IsOffered :
    (parts : Option (Text × Text)) (o : ExpiryOption) → parts_of parts ≡ some o → IsOffered o
parts_of-IsOffered none o h = cc h
parts_of-IsOffered (some ([], after)) o h = cc h
parts_of-IsOffered (some (c ∷ before, [])) o h = cc h
parts_of-IsOffered (some (c ∷ before, d ∷ after)) o h =
    let value = trim_space (d ∷ after) in
    offered (trim_space (c ∷ before)) value (parse_int value) o refl h

parse_entry-IsOffered : (entry : Text) (o : ExpiryOption) → parse_entry entry ≡ some o → IsOffered o
unfolding parse_entry
parse_entry-IsOffered entry o h = parts_of-IsOffered _ o h

kept :
    (e : Text) (os : List ExpiryOption) (r : Option ExpiryOption)
    → parse_entry e ≡ r
    → All IsOffered os
    → All IsOffered (elim r [ none ↦ os | some o ↦ o ∷ os ])
kept e os none q h = h
kept e os (some o) q h = (parse_entry-IsOffered e o q, h)

kept_options-IsOffered : (es : List Text) → All IsOffered (kept_options es)
kept_options-IsOffered [] = tt
kept_options-IsOffered (e ∷ es) =
    kept e (kept_options es) (parse_entry e) refl (kept_options-IsOffered es)

parse_expiry_times-IsOffered : (raw : Text) → All IsOffered (parse_expiry_times raw)
unfolding parse_expiry_times
parse_expiry_times-IsOffered raw =
    let s = trim_space (trim_both is_quote (trim_space raw)) in
    elim (Bool-cases (text_eq s [])) [
      | inl q ↦ rw q tt
      | inr q ↦ rw q (kept_options-IsOffered (split s))
    ]

default_expiry_times-IsOffered : All IsOffered default_expiry_times
unfolding requested_ttl parse_int parse_digits
default_expiry_times-IsOffered = (
  (0, refl, refl),
  (
    (300, refl, refl),
    (
      (600, refl, refl),
      (
        (3600, refl, refl),
        (
          (86400, refl, refl),
          ((604800, refl, refl), ((2592000, refl, refl), ((31536000, refl, refl), tt))),
        ),
      ),
    ),
  ),
)

listed-IsOffered : (os : List ExpiryOption) → All IsOffered os → All IsOffered (expiry_times os)
unfolding expiry_times
listed-IsOffered [] h = default_expiry_times-IsOffered
listed-IsOffered (o ∷ os) h = h

-- Whatever the variable PASTEBIN_EXPIRY_TIMES says, the value of each option of the menu is a number of
-- seconds as `ParseInt` reads it. (An option with a plus sign is one of them, but the sign is a space
-- where the server decodes the query.)
pub menu-IsOffered : (raw : Text) → All IsOffered (expiry_times (parse_expiry_times raw))
menu-IsOffered raw = listed-IsOffered (parse_expiry_times raw) (parse_expiry_times-IsOffered raw)
