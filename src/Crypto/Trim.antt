-- ===== src/Crypto/Trim.antt =====
-- `trim` on a text with no white space.
use mathlib.Core.List.{reverse, reverse_aux, reverse-reverse}
use own_pastebin.Prelude.{false, [], ◌∷◌, ◌≡◌, refl, Text, is_space, trim, trim_start, All}

abbrev NoSpace : Text → Type 0
NoSpace = All (λ c. is_space c ≡ false)

All-reverse_aux : (xs ys : Text) → NoSpace xs → NoSpace ys → NoSpace (reverse_aux xs ys)
All-reverse_aux [] ys h k = k
All-reverse_aux (x ∷ xs) ys (p, h) k = All-reverse_aux xs (x ∷ ys) h (p, k)

trim_start_same : (s : Text) → NoSpace s → trim_start s ≡ s
trim_start_same [] h = refl
trim_start_same (c ∷ s) (h, hs) = rw h

pub trim_same : (s : Text) → All (λ c. is_space c ≡ false) s → trim s ≡ s
trim_same s h =
    rw (trim_start_same s h, trim_start_same (reverse s) (All-reverse_aux s [] h tt))
      (reverse-reverse s)
