-- ===== src/Startup/Laws.antt =====
-- The order in which the scripts of a page are loaded, and the hash that they find.
use own_pastebin.Prelude.{
  ℕ, suc, ◌+◌, ◌&&◌, Bool, Option, none, some, List, [], ◌∷◌, ◌≡◌, ◌≢◌, ◌⊎◌, inl, inr, refl, arith,
  Option-cases, Bool-cases, or_else, Text,
}
use own_pastebin.LineHash.{normalize_line_hash}
use own_pastebin.LineHash.Laws.{normalize_line_hash-IsPrismHash}
use own_pastebin.Startup.{
  Script, prism, clipboard, Page, has_pre, load_prism, prism_loaded, ensure_pre_id, normalize,
  hash_changed, compensate, dom_ready,
}

-- One script of those under way ends.
pub data Ends (s : Script) : List Script → List Script → Type 0 where
  here : {rest : List Script} → Ends s (s ∷ rest) rest
  later : {t : Script} {ss rest : List Script} → Ends s ss rest → Ends s (t ∷ ss) (t ∷ rest)

-- The hash may change at any time, and events, timers and scripts come later in any order.
pub data Step : Page → Page → Type 0 where
  moved : (hash : Text) (p : Page) → Step p (record p { hash = hash; changes = p.changes + 1 })
  listened :
      (n : ℕ) (p : Page) → p.changes ≡ suc n → Step p (hash_changed (record p { changes = n }))
  fired :
      (height : Option ℕ) (n : ℕ) (p : Page)
      → p.timers ≡ suc n
      → Step p (compensate height (record p { timers = n }))
  loaded :
      (defines completes : Bool) (rest : List Script) (p : Page)
      → Ends prism p.loading rest
      → Step p (prism_loaded defines completes (record p { loading = rest }))
  clipboard_loaded :
      (rest : List Script) (p : Page)
      → Ends clipboard p.loading rest
      → Step p (record p { loading = rest })
  failed :
      (s : Script) (rest : List Script) (p : Page)
      → Ends s p.loading rest
      → Step p (record p { loading = rest })
  -- Prism highlights by itself, or for the language selector.
  highlighted_elsewhere : (p : Page) → Step p p

pub data Reach : Page → Page → Type 0 where
  at_start : {p : Page} → Reach p p
  and_then : {p q r : Page} → Reach p q → Step q r → Reach p r

-- Nothing was requested; or Prism was; or `loadPrism` has let it highlight the page, and the clipboard
-- script was requested after that.
abbrev pub IsInOrder : Page → Type 0
IsInOrder p =
    ((p.requested ≡ []) × (p.load_highlights ≡ 0))
    ⊎ ((p.requested ≡ prism ∷ []) × (p.load_highlights ≡ 0))
    ⊎ ((p.requested ≡ clipboard ∷ prism ∷ []) × (p.load_highlights ≡ 1))

-- What is under way at each of these stages.
abbrev IsStaged : Page → Type 0
IsStaged p =
    ((p.requested ≡ []) × (p.load_highlights ≡ 0) × (p.loading ≡ []))
    ⊎ ((p.requested ≡ prism ∷ [])
        × (p.load_highlights ≡ 0)
        × ((p.loading ≡ []) ⊎ (p.loading ≡ prism ∷ [])))
    ⊎ ((p.requested ≡ clipboard ∷ prism ∷ [])
        × (p.load_highlights ≡ 1)
        × ((p.loading ≡ []) ⊎ (p.loading ≡ clipboard ∷ [])))

-- What ends where at most one script is under way.
pub Ends-none : {s : Script} {ss rest : List Script} → Ends s ss rest → ss ≢ []
Ends-none here = λ e. cc
Ends-none (later d) = λ e. cc

Ends-one :
    {s : Script} {ss rest : List Script} (t : Script)
    → Ends s ss rest
    → ss ≡ t ∷ []
    → (s ≡ t) × (rest ≡ [])
Ends-one t here = λ e. (ground arith, ground arith)
Ends-one t (later d) = λ e. absurd (Ends-none d (ground arith))

Step-IsStaged : {p q : Page} → Step p q → IsStaged p → IsStaged q
unfolding hash_changed normalize compensate prism_loaded
Step-IsStaged (moved hash p) v = v
Step-IsStaged (listened n p e) v = v
Step-IsStaged (fired none n p e) v = v
Step-IsStaged (fired (some h) n p e) v = v
Step-IsStaged (loaded defines completes rest p e) v =
    ground (arith, Ends-none e, Ends-one prism e, Ends-one clipboard e)
Step-IsStaged (clipboard_loaded rest p e) v =
    ground (arith, Ends-none e, Ends-one prism e, Ends-one clipboard e)
Step-IsStaged (failed s rest p e) v =
    ground (arith, Ends-none e, Ends-one prism e, Ends-one clipboard e)
Step-IsStaged (highlighted_elsewhere p) v = v

Reach-IsStaged : {p q : Page} → Reach p q → IsStaged p → IsStaged q
Reach-IsStaged at_start v = v
Reach-IsStaged (and_then r s) v = Step-IsStaged s (Reach-IsStaged r v)

IsStaged-IsInOrder : (p : Page) → IsStaged p → IsInOrder p
IsStaged-IsInOrder p (inl (r, h, _)) = inl (r, h)
IsStaged-IsInOrder p (inr (inl (r, h, _))) = inr (inl (r, h))
IsStaged-IsInOrder p (inr (inr (r, h, _))) = inr (inr (r, h))

-- Whether the page's hash is one that the script would still translate.
abbrev pub IsSettled : Page → Type 0
IsSettled p = p.changes ≡ 0 → normalize_line_hash p.hash ≡ none

normal_hash : (hash : Text) → normalize_line_hash (or_else (normalize_line_hash hash) hash) ≡ none
normal_hash hash = elim (Option-cases (normalize_line_hash hash)) [
  | inl e ↦ rw (e, e)
  | inr (new, e) ↦ rw e (normalize_line_hash-IsPrismHash hash new e).1
]

Step-IsSettled : {p q : Page} → Step p q → IsSettled p → IsSettled q
unfolding hash_changed normalize compensate prism_loaded
Step-IsSettled (moved hash p) v = λ h. absurd (omega (arith, h))
Step-IsSettled (listened n p e) v = λ h. normal_hash p.hash
Step-IsSettled (fired none n p e) v = v
Step-IsSettled (fired (some h) n p e) v = v
Step-IsSettled (loaded defines completes rest p e) v = elim (Bool-cases (defines && completes)) [
  | inl h ↦ rw h v
  | inr h ↦ rw h v
]
Step-IsSettled (clipboard_loaded rest p e) v = v
Step-IsSettled (failed s rest p e) v = v
Step-IsSettled (highlighted_elsewhere p) v = v

Reach-IsSettled : {p q : Page} → Reach p q → IsSettled p → IsSettled q
Reach-IsSettled at_start v = v
Reach-IsSettled (and_then r s) v = Step-IsSettled s (Reach-IsSettled r v)

-- A page with nothing requested and no hash change behind it.
pub record IsFresh (p : Page) : Type 0 where
  pub unrequested : p.requested ≡ []
  pub unloaded : p.loading ≡ []
  pub plain : p.load_highlights ≡ 0

module _ (prefix : Text) (start : Page) (f : IsFresh start) where
  ready-IsStaged : IsStaged (dom_ready prefix start)
  unfolding dom_ready normalize ensure_pre_id load_prism
  ready-IsStaged = elim (Bool-cases (has_pre start.parent)) [
    | inl h ↦ rw h (inr (inl (rw f.unrequested refl, f.plain, inr (rw f.unloaded refl))))
    | inr h ↦ rw h (inl (f.unrequested, f.plain, f.unloaded))
  ]

  ready-IsSettled : IsSettled (dom_ready prefix start)
  unfolding dom_ready normalize ensure_pre_id load_prism
  ready-IsSettled = λ h. normal_hash _

  -- From the time that a page is ready, however its hash changes and in whichever order
  -- events, timers and scripts come, whether scripts load or fail, and whatever Prism highlights besides:
  -- Prism's script is requested at most once, `loadPrism` has it highlight the page at most once, and the
  -- clipboard script is requested once after that and never before; and whenever no change of the hash is waiting for its event, the
  -- hash holds no form that is still to be translated for Prism.
  pub scripts-IsInOrder :
      (p : Page)
      → Reach (dom_ready prefix start) p
      → IsInOrder p × (p.changes ≡ 0 → normalize_line_hash p.hash ≡ none)
  scripts-IsInOrder p r =
      (IsStaged-IsInOrder p (Reach-IsStaged r ready-IsStaged), Reach-IsSettled r ready-IsSettled)
