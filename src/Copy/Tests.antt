-- ===== src/Copy/Tests.antt =====
-- The copy button at an input: a click, the timer, and a click again.
use own_pastebin.Prelude.{false, [], ◌≡◌, refl, codes}
use own_pastebin.Page.{Env}
use own_pastebin.Copy.{Button, press, restore}
use own_pastebin.Copy.Laws.{Reach, at_start, and_then, pressed, fired, label_restored}

abbrev env : Env
env = record { prefix = []; catalogue = []; encode = λ t. t }

abbrev start : Button
start = record { label = codes "Copy"; disabled = false; timers = [] }

abbrev back : Button
back = restore (codes "Copy") [] (press env start)

pressing : Reach start back
unfolding press
pressing = and_then (and_then at_start (pressed env start refl)) (fired (codes "Copy") [] _ refl)

back-disabled : back.disabled ≡ false
unfolding restore
back-disabled = refl

label_restored_test : (back.label ≡ codes "Copy") × (back.timers ≡ [])
label_restored_test = label_restored start back refl refl pressing back-disabled
