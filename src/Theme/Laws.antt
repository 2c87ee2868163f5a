-- ===== src/Theme/Laws.antt =====
-- What `applyTheme` leaves of the classes of one element.
use own_pastebin.Prelude.{
  Bool, true, false, not, ◌&&◌, [], ◌∷◌, ◌≡◌, refl, ◌∙◌, arith, All, Text, text_eq, text_eq_sound,
}
use own_pastebin.Theme.{ClassList, Pairs, has, remove_both, replace, apply_pair, apply_pairs}

has-remove_both :
    (c old new : Text) (cs : ClassList) → has c cs ≡ false → has c (remove_both old new cs) ≡ false
has-remove_both c old new [] h = refl
has-remove_both c old new (d ∷ cs) h = ground (arith, has-remove_both c old new cs)

remove_both_old : (old new : Text) (cs : ClassList) → has old (remove_both old new cs) ≡ false
remove_both_old old new [] = refl
remove_both_old old new (c ∷ cs) = ground (arith, remove_both_old old new cs)

-- The old class is gone.
replace_old :
    (old new : Text) (cs : ClassList)
    → text_eq new old ≡ false
    → has old (replace old new cs) ≡ false
unfolding replace
replace_old old new [] h = refl
replace_old old new (c ∷ cs) h =
    ground (arith, replace_old old new cs h, remove_both_old old new cs)

-- No class but the new one appears.
replace_other :
    (c old new : Text) (cs : ClassList)
    → text_eq new c ≡ false
    → has c cs ≡ false
    → has c (replace old new cs) ≡ false
unfolding replace
replace_other c old new [] n h = refl
replace_other c old new (d ∷ cs) n h =
    ground (arith, replace_other c old new cs n, has-remove_both c old new cs)

-- The class that a pair makes in a theme, and the one that it takes away.
abbrev pub made : Bool → Text × Text → Text
made true (light, dark) = dark
made false (light, dark) = light

abbrev pub taken : Bool → Text × Text → Text
taken is_dark = made (not is_dark)

-- No pair makes what another one, or itself, takes away.
abbrev pub never_made : Bool → Text → Pairs → Bool
never_made is_dark c [] = true
never_made is_dark c (p ∷ ps) = not (text_eq (made is_dark p) c) && never_made is_dark c ps

abbrev pub is_apart : Bool → Pairs → Bool
is_apart is_dark [] = true
is_apart is_dark (p ∷ ps) = never_made is_dark (taken is_dark p) (p ∷ ps) && is_apart is_dark ps

apply_pair-taken :
    (is_dark : Bool) (p : Text × Text) (cs : ClassList)
    → text_eq (made is_dark p) (taken is_dark p) ≡ false
    → has (taken is_dark p) (apply_pair is_dark p cs) ≡ false
unfolding apply_pair
apply_pair-taken true (light, dark) cs h = ground (arith, replace_old light dark cs h)
apply_pair-taken false (light, dark) cs h = ground (arith, replace_old dark light cs h)

apply_pair_other :
    (is_dark : Bool) (p : Text × Text) (c : Text) (cs : ClassList)
    → text_eq (made is_dark p) c ≡ false
    → has c cs ≡ false
    → has c (apply_pair is_dark p cs) ≡ false
unfolding apply_pair
apply_pair_other true (light, dark) c cs n h = ground (arith, replace_other c light dark cs n h)
apply_pair_other false (light, dark) c cs n h = ground (arith, replace_other c dark light cs n h)

apply_pairs_other :
    (is_dark : Bool) (ps : Pairs) (c : Text) (cs : ClassList)
    → never_made is_dark c ps ≡ true
    → has c cs ≡ false
    → has c (apply_pairs is_dark ps cs) ≡ false
unfolding apply_pairs
apply_pairs_other is_dark [] c cs n h = h
apply_pairs_other is_dark (p ∷ ps) c cs n h =
    apply_pairs_other is_dark ps c (apply_pair is_dark p cs) (ground arith)
      (apply_pair_other is_dark p c cs (ground arith) h)

-- Nothing that the theme takes away is left.
abbrev pub IsThemed : Bool → Pairs → ClassList → Type 0
IsThemed is_dark ps cs = All (λ p. has (taken is_dark p) cs ≡ false) ps

pub apply_pairs-IsThemed :
    (is_dark : Bool) (ps : Pairs) (cs : ClassList)
    → is_apart is_dark ps ≡ true
    → IsThemed is_dark ps (apply_pairs is_dark ps cs)
unfolding apply_pairs
apply_pairs-IsThemed is_dark [] cs h = tt
apply_pairs-IsThemed is_dark (p ∷ ps) cs h = (
  apply_pairs_other is_dark ps (taken is_dark p) (apply_pair is_dark p cs) (ground arith)
      (apply_pair-taken is_dark p cs (ground arith)),
  apply_pairs-IsThemed is_dark ps (apply_pair is_dark p cs) (ground arith),
)

same_name : (d old c : Text) → text_eq d old ≡ true → text_eq old c ≡ false → text_eq d c ≡ false
same_name d old c e h = rw (text_eq_sound d old e) h

has-remove_both_kept :
    (c old new : Text) (cs : ClassList)
    → text_eq old c ≡ false
    → text_eq new c ≡ false
    → has c (remove_both old new cs) ≡ has c cs
has-remove_both_kept c old new [] o n = refl
has-remove_both_kept c old new (d ∷ cs) o n =
    ground (arith, has-remove_both_kept c old new cs o n, same_name d old c, same_name d new c)

has-replace_kept :
    (c old new : Text) (cs : ClassList)
    → text_eq old c ≡ false
    → text_eq new c ≡ false
    → has c (replace old new cs) ≡ has c cs
unfolding replace
has-replace_kept c old new [] o n = refl
has-replace_kept c old new (d ∷ cs) o n = ground (
  arith,
  has-replace_kept c old new cs o n,
  has-remove_both_kept c old new cs o n,
  same_name d old c,
  same_name d new c,
)

abbrev pub is_foreign : Text → Pairs → Bool
is_foreign c [] = true
is_foreign c ((light, dark) ∷ ps) = not (text_eq light c) && not (text_eq dark c) && is_foreign c ps

has-apply_pair :
    (is_dark : Bool) (light dark c : Text) (cs : ClassList)
    → text_eq light c ≡ false
    → text_eq dark c ≡ false
    → has c (apply_pair is_dark (light, dark) cs) ≡ has c cs
unfolding apply_pair
has-apply_pair is_dark light dark c cs l d =
    ground (arith, has-replace_kept c light dark cs l d, has-replace_kept c dark light cs d l)

-- A class that is not in the map is neither added nor removed.
pub has-apply_pairs :
    (is_dark : Bool) (ps : Pairs) (c : Text) (cs : ClassList)
    → is_foreign c ps ≡ true
    → has c (apply_pairs is_dark ps cs) ≡ has c cs
unfolding apply_pairs
has-apply_pairs is_dark [] c cs h = refl
has-apply_pairs is_dark ((light, dark) ∷ ps) c cs h =
    has-apply_pairs is_dark ps c (apply_pair is_dark (light, dark) cs) (ground arith)
    ∙ has-apply_pair is_dark light dark c cs (ground arith) (ground arith)
