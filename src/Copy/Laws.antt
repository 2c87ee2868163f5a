-- ===== src/Copy/Laws.antt =====
-- The label of the copy button always comes back.
use own_pastebin.Prelude.{true, false, List, [], ◌∷◌, ◌≡◌, ◌⊎◌, inl, inr, refl, arith, Text}
use own_pastebin.Page.{Env}
use own_pastebin.Copy.{Button, press, restore}

-- A browser sends no click to a disabled button. The page may have another language at each click.
pub data Step : Button → Button → Type 0 where
  pressed : (env : Env) (b : Button) → b.disabled ≡ false → Step b (press env b)
  fired :
      (original : Text) (rest : List Text) (b : Button)
      → b.timers ≡ original ∷ rest
      → Step b (restore original rest b)

pub data Reach : Button → Button → Type 0 where
  at_start : {b : Button} → Reach b b
  and_then : {b c d : Button} → Reach b c → Step c d → Reach b d

-- Either nothing is pending and the label is the first one, or one timer will restore it.
abbrev pub IsSettled : Text → Button → Type 0
IsSettled label b =
    ((b.disabled ≡ false) × (b.timers ≡ []) × (b.label ≡ label))
    ⊎ ((b.disabled ≡ true) × (b.timers ≡ label ∷ []))

Step-IsSettled : (label : Text) (b c : Button) → Step b c → IsSettled label b → IsSettled label c
unfolding press restore
Step-IsSettled label b _ (pressed env _ h) v = ground arith
Step-IsSettled label b _ (fired original rest _ h) v = ground arith

Reach-IsSettled : {label : Text} {b c : Button} → Reach b c → IsSettled label b → IsSettled label c
Reach-IsSettled at_start v = v
Reach-IsSettled (and_then r s) v = Step-IsSettled _ _ _ s (Reach-IsSettled r v)

-- Whatever clicks and timers come after a state where the button is enabled and no timer runs: in
-- each state where the button is enabled, it has its first label again and no timer runs.
pub label_restored :
    (start b : Button)
    → start.disabled ≡ false
    → start.timers ≡ []
    → Reach start b
    → b.disabled ≡ false
    → (b.label ≡ start.label) × (b.timers ≡ [])
label_restored start b hd ht r e = elim (Reach-IsSettled r (inl (hd, ht, refl))) [
  | inl (d, t, l) ↦ (l, t)
  | inr (d, t) ↦ cc
]
