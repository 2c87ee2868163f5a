-- ===== src/Startup/Late.antt =====
-- A page whose `pre` element has no id of its own.
use own_pastebin.Prelude.{true, Option, none, some, [], ◌≡◌, refl, Text}
use own_pastebin.LineHash.{pre_id}
use own_pastebin.Startup.{
  Parent, Page, load_prism, ensure_pre_id, normalize, hash_changed, compensate, dom_ready,
}
use own_pastebin.Startup.Laws.{
  highlighted_elsewhere, Step, moved, listened, fired, loaded, clipboard_loaded, failed, Reach,
  at_start, and_then, IsFresh, Ends-none,
}

-- Nothing is or was under way.
abbrev IsBare : Option Parent → Page → Type 0
IsBare e p = (p.parent ≡ e) × (p.requested ≡ []) × (p.load_highlights ≡ 0) × (p.loading ≡ [])

Step-IsBare : {e : Option Parent} {p q : Page} → Step p q → IsBare e p → IsBare e q
unfolding hash_changed normalize compensate
Step-IsBare (moved hash p) v = v
Step-IsBare (listened n p _) v = v
Step-IsBare (fired none n p _) v = v
Step-IsBare (fired (some h) n p _) v = v
Step-IsBare (loaded defines completes rest p d) v = absurd (Ends-none d v.3)
Step-IsBare (clipboard_loaded rest p d) v = absurd (Ends-none d v.3)
Step-IsBare (failed s rest p d) v = absurd (Ends-none d v.3)
Step-IsBare (highlighted_elsewhere p) v = v

Reach-IsBare : {e : Option Parent} {p q : Page} → Reach p q → IsBare e p → IsBare e q
Reach-IsBare at_start v = v
Reach-IsBare (and_then r s) v = Step-IsBare s (Reach-IsBare r v)

-- If the `pre` around the code block comes without an id, the script gives it the id that Prism
-- needs, but too late: it has already looked for it, so on no history Prism's script is requested
-- or the page is highlighted.
pub late_id :
    (prefix : Text) (start p : Page)
    → IsFresh start
    → start.parent ≡ some (record { is_pre = true; id = [] })
    → Reach (dom_ready prefix start) p
    → (p.parent ≡ some (record { is_pre = true; id = pre_id }))
      × (p.requested ≡ [])
      × (p.load_highlights ≡ 0)
unfolding dom_ready normalize ensure_pre_id load_prism
late_id prefix start p f h r =
    let ready : IsBare (some (record { is_pre = true; id = pre_id })) (dom_ready prefix start) =
      rw h (refl, f.unrequested, f.plain, f.unloaded) in
    let (kept, unrequested, plain, _) = Reach-IsBare r ready in (kept, unrequested, plain)
