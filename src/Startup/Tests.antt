-- ===== src/Startup/Tests.antt =====
-- The start of a page at an input: its scripts are loaded, and the hash changes.
use own_pastebin.Prelude.{◌+◌, true, none, some, [], ◌∷◌, ◌≡◌, refl, Text, codes}
use own_pastebin.LineHash.{pre_id, normalize_line_hash, drop_spaces}
use own_pastebin.Startup.{
  Metas, start_settings, get_meta, Page, dom_ready, load_prism, ensure_pre_id, normalize,
  prism_loaded, hash_changed,
}
use own_pastebin.Startup.Laws.{
  here, moved, listened, loaded, Reach, at_start, and_then, IsFresh, IsInOrder, scripts-IsInOrder,
}
use own_pastebin.Startup.Late.{late_id}

abbrev metas : Metas
metas = (codes "default-expiry", codes "0") ∷ (codes "default-burn", []) ∷ []

defaults :
    start_settings metas
    ≡ record { expiry = codes "0"; burn = codes "false"; protected = codes "false" }
unfolding start_settings get_meta
defaults = refl

abbrev page_with : Text → Page
page_with id = record {
  parent = some (record { is_pre = true; id = id });
  hash = codes "#L3-5";
  changes = 0;
  timers = 0;
  scroll = 0;
  styles = [];
  loading = [];
  requested = [];
  load_highlights = 0;
}

fresh : (id : Text) → IsFresh (page_with id)
fresh id = record { unrequested = refl; unloaded = refl; plain = refl }

abbrev ready : Page
ready = dom_ready [] (page_with pre_id)

abbrev highlighted : Page
highlighted = prism_loaded true true (record ready { loading = [] })

abbrev elsewhere : Page
elsewhere = record highlighted { hash = codes "#L7"; changes = highlighted.changes + 1 }

abbrev settled : Page
settled = hash_changed (record elsewhere { changes = 0 })

history : Reach ready settled
unfolding dom_ready normalize ensure_pre_id load_prism prism_loaded
history =
    and_then
      (and_then (and_then at_start (loaded true true [] ready here))
        (moved (codes "#L7") highlighted))
      (listened 0 elsewhere refl)

settled_hash : (settled.hash ≡ codes "#pastebin-pre.7") × (settled.load_highlights ≡ 1)
unfolding hash_changed dom_ready normalize ensure_pre_id load_prism prism_loaded normalize_line_hash
    drop_spaces
settled_hash = (refl, refl)

scripts-IsInOrder_example :
    IsInOrder settled × (settled.changes ≡ 0 → normalize_line_hash settled.hash ≡ none)
scripts-IsInOrder_example = scripts-IsInOrder [] (page_with pre_id) (fresh pre_id) settled history

abbrev bare : Page
bare = dom_ready [] (page_with [])

late_id_test :
    (bare.parent ≡ some (record { is_pre = true; id = pre_id }))
    × (bare.requested ≡ [])
    × (bare.load_highlights ≡ 0)
late_id_test = late_id [] (page_with []) bare (fresh []) refl at_start
