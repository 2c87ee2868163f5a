-- ===== src/Server/Store/Stats.antt =====
-- The statistics of the SQLite and Postgres storages: the counts of `Stats`, which both ask in one
-- query. The sizes of the files are not modelled.
use own_pastebin.Prelude.{
  ℕ, suc, ◌+◌, ◌≡◌, ◌∙◌, refl, sym, ap, arith, Bool, true, false, not, ◌&&◌, Bool-cases, inl, inr,
  Option, none, some, [], ◌∷◌, if◌then◌else◌, Text, text_eq, text_eq_refl, text_eq_sound, ltb,
}
use own_pastebin.Server.Store.{Paste, Table, find, is_some}
use own_pastebin.Server.Store.View.{live, visible, IsKeyed, nil, row}

pub record StorageStats : Type 0 where
  pub total : ℕ
  pub permanent : ℕ
  pub expiring : ℕ
  pub burn_on_read : ℕ
  pub ss_encrypted : ℕ
  pub e2e_encrypted : ℕ
  pub protected : ℕ

-- `WHERE expire_at IS NULL OR expire_at > ?`
abbrev pub is_current : ℕ → Option ℕ → Bool
is_current now none = true
is_current now (some at) = ltb now at

-- The rows that the query counts for a column.
unfoldable pub count : ℕ → (Paste → Bool) → Table → ℕ
count now test [] = 0
count now test ((k, p) ∷ rows) =
    let rest = count now test rows in
    if is_current now p.expire_at && test p then suc rest else rest

unfoldable pub stats : ℕ → Table → StorageStats
unfolding count
stats now rows = record {
  total = count now (λ p. true) rows;
  permanent = count now (λ p. not (is_some p.expire_at)) rows;
  expiring = count now (λ p. is_some p.expire_at) rows;
  burn_on_read = count now (λ p. p.burn) rows;
  ss_encrypted = count now (λ p. p.encrypted) rows;
  e2e_encrypted = count now (λ p. p.e2e_encrypted) rows;
  protected = count now (λ p. p.protected) rows;
}

-- How many of the ids a reader finds a paste under that passes a test.
abbrev pub passes : (Paste → Bool) → Option Paste → Bool
passes test none = false
passes test (some p) = test p

abbrev pub readable : ℕ → (Paste → Bool) → Table → Table → ℕ
readable now test rows [] = 0
readable now test rows ((k, p) ∷ rest) =
    let more = readable now test rows rest in
    if passes test (live now k rows) then suc more else more

-- Each row of a part is found in the table.
abbrev IsFound : Table → Table → Type 0
IsFound rows [] = Unit
IsFound rows ((k, p) ∷ rest) = (find k rows ≡ some p) × IsFound rows rest

IsFound-cons :
    (k : Text) (p : Paste) (rows rest : Table)
    → find k rows ≡ none
    → IsFound rows rest
    → IsFound ((k, p) ∷ rows) rest
unfolding find
IsFound-cons k p rows [] free h = tt
IsFound-cons k p rows ((j, q) ∷ rest) free (e, h) = (other, IsFound-cons k p rows rest free h)
  where
    other : find j ((k, p) ∷ rows) ≡ some q
    other = elim (Bool-cases (text_eq k j)) [
      | inl same ↦ absurd (cc (sym free ∙ ap (λ i. find i rows) (text_eq_sound k j same) ∙ e))
      | inr differs ↦ rw differs e
    ]

IsKeyed-IsFound : {rows : Table} → IsKeyed rows → IsFound rows rows
unfolding find
IsKeyed-IsFound nil = tt
IsKeyed-IsFound (row k p {rows} free v) =
    (rw (text_eq_refl k) refl, IsFound-cons k p rows rows free (IsKeyed-IsFound v))

passes-visible :
    (now : ℕ) (test : Paste → Bool) (p : Paste) (at : Option ℕ)
    → p.expire_at ≡ at
    → passes test (visible now (some p)) ≡ (is_current now at && test p)
passes-visible now test p none e = rw e refl
passes-visible now test p (some t) e = rw e (ground arith)

count-readable :
    (now : ℕ) (test : Paste → Bool) (rows rest : Table)
    → IsFound rows rest
    → count now test rest ≡ readable now test rows rest
unfolding count live
count-readable now test rows [] h = refl
count-readable now test rows ((k, p) ∷ rest) (e, h) =
    rw (e, passes-visible now test p p.expire_at refl, count-readable now test rows rest h) refl

count-split :
    (now : ℕ) (rows : Table)
    → count now (λ p. true) rows
      ≡ count now (λ p. not (is_some p.expire_at)) rows + count now (λ p. is_some p.expire_at) rows
unfolding count
count-split now [] = omega arith
count-split now ((k, p) ∷ rows) = ground (arith, count-split now rows)

-- The statistics count the pastes that readers find: in all, those with each of the flags, and those
-- with and without a time to expire, which together are all. (No id stands twice.)
pub stats-live :
    (now : ℕ) (rows : Table)
    → IsKeyed rows
    → ((stats now rows).total ≡ readable now (λ p. true) rows rows)
      × ((stats now rows).burn_on_read ≡ readable now (λ p. p.burn) rows rows)
      × ((stats now rows).ss_encrypted ≡ readable now (λ p. p.encrypted) rows rows)
      × ((stats now rows).e2e_encrypted ≡ readable now (λ p. p.e2e_encrypted) rows rows)
      × ((stats now rows).protected ≡ readable now (λ p. p.protected) rows rows)
      × ((stats now rows).expiring ≡ readable now (λ p. is_some p.expire_at) rows rows)
      × ((stats now rows).total ≡ (stats now rows).permanent + (stats now rows).expiring)
unfolding stats
stats-live now rows v =
    let same = λ (test : Paste → Bool). count-readable now test rows rows (IsKeyed-IsFound v) in
    (
      same (λ p. true),
      same (λ p. p.burn),
      same (λ p. p.encrypted),
      same (λ p. p.e2e_encrypted),
      same (λ p. p.protected),
      same (λ p. is_some p.expire_at),
      count-split now rows,
    )
