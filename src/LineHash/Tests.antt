-- ===== src/LineHash/Tests.antt =====
-- Line hashes at inputs.
use own_pastebin.Prelude.{none, some, ◌≡◌, refl, codes}
use own_pastebin.LineHash.{normalize_line_hash, drop_spaces}

spaced : normalize_line_hash (codes "#l1-3, 7") ≡ some (codes "#pastebin-pre.1-3,7")
unfolding normalize_line_hash drop_spaces
spaced = refl

refused : (normalize_line_hash (codes "#L") ≡ none) × (normalize_line_hash (codes "#Lx") ≡ none)
unfolding normalize_line_hash
refused = (refl, refl)
