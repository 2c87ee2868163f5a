-- ===== src/Strength/Tests.antt =====
-- Scores at inputs.
use own_pastebin.Prelude.{[], ◌≡◌, refl, codes}
use own_pastebin.Strength.{score}

scores : (score (codes "abc") ≡ 1) × (score (codes "Passw0rd") ≡ 4) × (score [] ≡ 0)
unfolding score
scores = (refl, refl, refl)
