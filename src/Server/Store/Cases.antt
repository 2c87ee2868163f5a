-- ===== src/Server/Store/Cases.antt =====
-- The results of the two readings of internal/storage.go.
use own_pastebin.Prelude.{ℕ, Option, none, some, ◌≡◌, ◌⊎◌, inl, inr, refl, Bool-cases, Text}
use own_pastebin.Server.Store.{
  Paste, Table, find, delete, get, get_and_delete, answer, take_live, is_over,
}

answer_cases :
    (now : ℕ) (id : Text) (rows : Table) (x : Option Paste)
    → find id rows ≡ x
    → (answer now id rows x ≡ (none, rows))
      ⊎ (answer now id rows x ≡ (none, delete id rows))
      ⊎ ((p : Paste) × (find id rows ≡ some p) × (answer now id rows x ≡ (some p, rows)))
answer_cases now id rows none e = inl refl
answer_cases now id rows (some p) e = elim (Bool-cases (is_over now p.expire_at)) [
  | inl h ↦ inr (inl (rw h))
  | inr h ↦ inr (inr (p, e, rw h))
]

pub get_cases :
    (now : ℕ) (id : Text) (rows : Table)
    → (get now id rows ≡ (none, rows))
      ⊎ (get now id rows ≡ (none, delete id rows))
      ⊎ ((p : Paste) × (find id rows ≡ some p) × (get now id rows ≡ (some p, rows)))
unfolding get
get_cases now id rows = answer_cases now id rows (find id rows) refl

take_live_cases :
    (now : ℕ) (id : Text) (rows : Table) (x : Option Paste)
    → find id rows ≡ x
    → (take_live now id rows x ≡ (none, rows))
      ⊎ ((p : Paste) × (find id rows ≡ some p)
          × (take_live now id rows x ≡ (some p, delete id rows)))
take_live_cases now id rows none e = inl refl
take_live_cases now id rows (some p) e = elim (Bool-cases (is_over now p.expire_at)) [
  | inl h ↦ inl (rw h)
  | inr h ↦ inr (p, e, rw h)
]

pub take_cases :
    (now : ℕ) (id : Text) (rows : Table)
    → (get_and_delete now id rows ≡ (none, rows))
      ⊎ ((p : Paste) × (find id rows ≡ some p)
          × (get_and_delete now id rows ≡ (some p, delete id rows)))
unfolding get_and_delete
take_cases now id rows = take_live_cases now id rows (find id rows) refl
