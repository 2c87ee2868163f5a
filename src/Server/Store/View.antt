-- ===== src/Server/Store/View.antt =====
-- The abstract view of a table, the pastes that are there for a reader at a time, and what the
-- table's functions make of a lookup.
use own_pastebin.Prelude.{
  ℕ, ◌≤◌, true, Option, none, some, [], ◌∷◌, ◌≡◌, refl, arith, inl, inr, Bool-cases, if◌then◌else◌,
  Text, text_eq, text_eq_refl, text_eq_sound,
}
use own_pastebin.Server.Store.{Paste, Table, find, delete, is_over, is_stale, cleanup, save}

-- What a reader sees under a key at a time.
abbrev pub visible : ℕ → Option Paste → Option Paste
visible now none = none
visible now (some p) = if is_over now p.expire_at then none else some p

unfoldable pub live : ℕ → Text → Table → Option Paste
live now key rows = visible now (find key rows)

pub find-delete :
    (key k : Text) (rows : Table)
    → find k (delete key rows) ≡ (if text_eq key k then none else find k rows)
unfolding find delete
find-delete key k [] = ground arith
find-delete key k ((j, p) ∷ rows) = ground (
  arith,
  text_eq_sound j key,
  text_eq_sound j k,
  text_eq_sound key k,
  text_eq_refl k,
  find-delete key k rows,
)

-- Each id stands once.
pub data IsKeyed : Table → Type 0 where
  nil : IsKeyed []
  row :
      (k : Text) (p : Paste) {rows : Table}
      → find k rows ≡ none
      → IsKeyed rows
      → IsKeyed ((k, p) ∷ rows)

abbrev pub kept : ℕ → Option Paste → Option Paste
kept now none = none
kept now (some p) = if is_stale now p.expire_at then none else some p

pub find-cleanup :
    (now : ℕ) (k : Text) (rows : Table)
    → IsKeyed rows
    → find k (cleanup now rows) ≡ kept now (find k rows)
unfolding find cleanup
find-cleanup now k _ nil = refl
find-cleanup now k _ (row j p {rows} h v) =
    ground (arith, text_eq_sound j k, find-cleanup now k rows v)

-- What is over once stays over.
pub is_over_mono :
    (now later : ℕ) (at : Option ℕ) → now ≤ later → is_over now at ≡ true → is_over later at ≡ true
is_over_mono now later none h e = e
is_over_mono now later (some at) h e = ground arith

is_stale-is_over :
    (now later : ℕ) (at : Option ℕ) → now ≤ later → is_stale now at ≡ true → is_over later at ≡ true
is_stale-is_over now later none h e = cc
is_stale-is_over now later (some at) h e = ground arith

visible-kept :
    (now later : ℕ) (x : Option Paste) → now ≤ later → visible later (kept now x) ≡ visible later x
visible-kept now later none h = refl
visible-kept now later (some p) h = ground (arith, is_stale-is_over now later p.expire_at)

pub live-cleanup :
    (now later : ℕ) (k : Text) (rows : Table)
    → IsKeyed rows
    → now ≤ later
    → live later k (cleanup now rows) ≡ live later k rows
unfolding live
live-cleanup now later k rows v h =
    rw (find-cleanup now k rows v) (visible-kept now later (find k rows) h)

pub live-delete :
    (now : ℕ) (key k : Text) (rows : Table)
    → live now k (delete key rows) ≡ (if text_eq key k then none else live now k rows)
unfolding live
live-delete now key k rows = ground (arith, find-delete key k rows)

pub save_done :
    (key : Text) (p : Paste) (rows rows' : Table)
    → save key p rows ≡ some rows'
    → (find key rows ≡ none) × (rows' ≡ (key, p) ∷ rows)
unfolding save
save_done key p rows rows' h = ground arith

pub save-IsKeyed :
    (key : Text) (p : Paste) (rows rows' : Table)
    → save key p rows ≡ some rows'
    → IsKeyed rows
    → IsKeyed rows'
save-IsKeyed key p rows rows' h v =
    let (absent, e) = save_done key p rows rows' h in rw e (row key p absent v)

pub delete-IsKeyed : (key : Text) (rows : Table) → IsKeyed rows → IsKeyed (delete key rows)
unfolding delete
delete-IsKeyed key _ nil = nil
delete-IsKeyed key _ (row j p {rows} h v) = elim (Bool-cases (text_eq j key)) [
  | inl e ↦ rw e (delete-IsKeyed key rows v)
  | inr e ↦ rw e (row j p (ground (arith, find-delete key j rows)) (delete-IsKeyed key rows v))
]

pub cleanup-IsKeyed : (now : ℕ) (rows : Table) → IsKeyed rows → IsKeyed (cleanup now rows)
unfolding cleanup
cleanup-IsKeyed now _ nil = nil
cleanup-IsKeyed now _ (row j p {rows} h v) = elim (Bool-cases (is_stale now p.expire_at)) [
  | inl e ↦ rw e (cleanup-IsKeyed now rows v)
  | inr e ↦ rw e (row j p (ground (arith, find-cleanup now j rows v)) (cleanup-IsKeyed now rows v))
]
