-- ===== src/Server/Assets/Laws.antt =====
-- `dedupeStrings` keeps the members and the order of the first occurrences, and no string twice.
use own_pastebin.Prelude.{
  false, not, ◌&&◌, List, [], ◌∷◌, ◌≡◌, refl, arith, inl, inr, Bool-cases, Text, text_eq_refl,
  text_eq_sound,
}
use own_pastebin.Server.Assets.{has, dedupe_from, dedupe_strings}

-- No string stands twice.
abbrev pub IsDistinct : List Text → Type 0
IsDistinct [] = Unit
IsDistinct (s ∷ ss) = (has s ss ≡ false) × IsDistinct ss

-- One list is the other with some entries left out.
pub data IsSublist : List Text → List Text → Type 0 where
  nil : IsSublist [] []
  keep : (s : Text) {ss ts : List Text} → IsSublist ss ts → IsSublist (s ∷ ss) (s ∷ ts)
  skip : (s : Text) {ss ts : List Text} → IsSublist ss ts → IsSublist ss (s ∷ ts)

has-dedupe_from :
    (t : Text) (seen ss : List Text) → has t (dedupe_from seen ss) ≡ (has t ss && not (has t seen))
unfolding dedupe_from
has-dedupe_from t seen [] = refl
has-dedupe_from t seen (s ∷ ss) =
    ground (arith, text_eq_sound s t, has-dedupe_from t seen ss, has-dedupe_from t (s ∷ seen) ss)

dedupe_from-IsDistinct : (seen ss : List Text) → IsDistinct (dedupe_from seen ss)
unfolding dedupe_from
dedupe_from-IsDistinct seen [] = tt
dedupe_from-IsDistinct seen (s ∷ ss) = elim (Bool-cases (has s seen)) [
  | inl e ↦ rw e (dedupe_from-IsDistinct seen ss)
  | inr e ↦ rw e (
    ground (arith, has-dedupe_from s (s ∷ seen) ss, text_eq_refl s),
    dedupe_from-IsDistinct (s ∷ seen) ss,
  )
]

dedupe_from-IsSublist : (seen ss : List Text) → IsSublist (dedupe_from seen ss) ss
unfolding dedupe_from
dedupe_from-IsSublist seen [] = nil
dedupe_from-IsSublist seen (s ∷ ss) = elim (Bool-cases (has s seen)) [
  | inl e ↦ rw e (skip s (dedupe_from-IsSublist seen ss))
  | inr e ↦ rw e (keep s (dedupe_from-IsSublist (s ∷ seen) ss))
]

pub has-dedupe_strings : (t : Text) (ss : List Text) → has t (dedupe_strings ss) ≡ has t ss
unfolding dedupe_strings
has-dedupe_strings t ss = ground (arith, has-dedupe_from t [] ss)

-- `dedupeStrings` leaves entries out and changes no order, no string is in the result twice, and a
-- string is in the result exactly when it is in the argument.
pub dedupe_strings_kept :
    (ss : List Text)
    → IsSublist (dedupe_strings ss) ss
      × IsDistinct (dedupe_strings ss)
      × ((t : Text) → has t (dedupe_strings ss) ≡ has t ss)
unfolding dedupe_strings
dedupe_strings_kept ss =
    (dedupe_from-IsSublist [] ss, dedupe_from-IsDistinct [] ss, λ t. has-dedupe_strings t ss)
