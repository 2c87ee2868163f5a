-- ===== src/Server/Postgres/Laws.antt =====
-- The Postgres functions keep the promise of `Storage`.
use own_pastebin.Prelude.{
  ℕ, ◌≤◌, Option, none, some, [], ◌∷◌, ◌≡◌, refl, sym, ◌∙◌, arith, inl, inr, Bool-cases,
  if◌then◌else◌, Text, text_eq, text_eq_refl, text_eq_sound,
}
use own_pastebin.Server.Store.{Paste, Table, find, delete, cleanup, save, is_some, is_over}
use own_pastebin.Server.Store.View.{
  visible, live, IsKeyed, nil, row, is_over_mono, live-delete, live-cleanup, delete-IsKeyed,
  cleanup-IsKeyed, save-IsKeyed,
}
use own_pastebin.Server.Store.Refine.{saves_live}
use own_pastebin.Server.Contract.{IsStorage}
use own_pastebin.Server.Postgres.{
  matches, select, delete_selected, delete_id, has_id, insert, delete_stale, postgres,
}

-- The two plain deletions are those of SQLite.
delete_id-delete : (key : Text) (rows : Table) → delete_id key rows ≡ delete key rows
unfolding delete_id delete
delete_id-delete key [] = refl
delete_id-delete key ((k, p) ∷ rows) = rw (delete_id-delete key rows)

delete_stale-cleanup : (now : ℕ) (rows : Table) → delete_stale now rows ≡ cleanup now rows
unfolding delete_stale cleanup
delete_stale-cleanup now [] = refl
delete_stale-cleanup now ((k, p) ∷ rows) = rw (delete_stale-cleanup now rows)

select-none :
    (now : ℕ) (key : Text) (rows : Table) → find key rows ≡ none → select now key rows ≡ none
unfolding find select
select-none now key [] h = refl
select-none now key ((k, p) ∷ rows) h = ground (arith, select-none now key rows)

select-live :
    (now : ℕ) (key : Text) (rows : Table) → IsKeyed rows → select now key rows ≡ live now key rows
unfolding find select live
select-live now key _ nil = refl
select-live now key _ (row j p {rows} h v) =
    ground (arith, text_eq_sound j key, select-none now key rows, select-live now key rows v)

-- What is left of a paste that a deletion selects.
abbrev over_only : ℕ → Option Paste → Option Paste
over_only now none = none
over_only now (some p) = if is_over now p.expire_at then some p else none

find-delete_selected :
    (now : ℕ) (key k : Text) (rows : Table)
    → IsKeyed rows
    → find k (delete_selected now key rows)
      ≡ (if text_eq key k then over_only now (find k rows) else find k rows)
unfolding find delete_selected
find-delete_selected now key k _ nil = ground arith
find-delete_selected now key k _ (row j p {rows} h v) = ground (
  arith,
  text_eq_sound j key,
  text_eq_sound j k,
  text_eq_sound key k,
  text_eq_refl k,
  find-delete_selected now key k rows v,
)

visible-over_only :
    (now later : ℕ) (x : Option Paste) → now ≤ later → visible later (over_only now x) ≡ none
visible-over_only now later none h = refl
visible-over_only now later (some p) h = ground (arith, is_over_mono now later p.expire_at h)

live-delete_selected :
    (now later : ℕ) (key k : Text) (rows : Table)
    → IsKeyed rows
    → now ≤ later
    → live later k (delete_selected now key rows)
      ≡ (if text_eq key k then none else live later k rows)
unfolding live
live-delete_selected now later key k rows v h =
    rw (find-delete_selected now key k rows v)
      (ground (arith, visible-over_only now later (find k rows) h))

delete_selected-IsKeyed :
    (now : ℕ) (key : Text) (rows : Table) → IsKeyed rows → IsKeyed (delete_selected now key rows)
unfolding delete_selected
delete_selected-IsKeyed now key _ nil = nil
delete_selected-IsKeyed now key _ (row j p {rows} h v) =
    let rest = delete_selected-IsKeyed now key rows v in
    elim (Bool-cases (matches now key j p)) [
      | inl e ↦ rw e rest
      | inr e ↦ rw e (row j p (ground (arith, find-delete_selected now key j rows v)) rest)
    ]

has_id-find : (key : Text) (rows : Table) → has_id key rows ≡ is_some (find key rows)
unfolding find
has_id-find key [] = refl
has_id-find key ((k, p) ∷ rows) = ground (arith, has_id-find key rows)

insert-save : (key : Text) (p : Paste) (rows : Table) → insert key p rows ≡ save key p rows
unfolding insert save
insert-save key p rows = rw (has_id-find key rows) refl

insert_done :
    (now : ℕ) (key k : Text) (p : Paste) (rows rows' : Table)
    → IsKeyed rows
    → insert key p rows ≡ some rows'
    → (live now key rows ≡ none)
      × (live now k rows' ≡ (if text_eq key k then visible now (some p) else live now k rows))
      × IsKeyed rows'
unfolding live
insert_done now key k p rows rows' v e =
    let saved = sym (insert-save key p rows) ∙ e in
    let (absent, added) = saves_live now key k p rows rows' saved in
    (rw absent refl, added, save-IsKeyed key p rows rows' saved v)

-- The Postgres storage keeps the promise of the interface `Storage`, on tables in which no id
-- stands twice: the three readings return the paste that is there at the time, `PeekMeta` without its
-- content; at each later time `Get`, `PeekMeta` and the cleanup have left every paste, `Delete` and
-- `GetAndDelete` all but the one with the key; a `Save` that succeeds found no paste there and
-- adds its own, which is there until it expires; and after each of them no id stands twice.
pub postgres-IsStorage : IsStorage postgres IsKeyed live
postgres-IsStorage = record {
  get_read = λ now key s v. select-live now key s v;
  get_kept = λ now later key k s v h. refl;
  get_valid = λ now key s v. v;
  peek_read = λ now key s v. rw (select-live now key s v) refl;
  peek_kept = λ now later key k s v h. refl;
  peek_valid = λ now key s v. v;
  take_read = λ now key s v. select-live now key s v;
  take_gone = λ now later key k s v h. live-delete_selected now later key k s v h;
  take_valid = λ now key s v. delete_selected-IsKeyed now key s v;
  delete_gone = λ now key k s v. rw (delete_id-delete key s) (live-delete now key k s);
  delete_valid = λ key s v. rw (delete_id-delete key s) (delete-IsKeyed key s v);
  cleanup_kept =
      λ now later k s v h. rw (delete_stale-cleanup now s) (live-cleanup now later k s v h);
  cleanup_valid = λ now s v. rw (delete_stale-cleanup now s) (cleanup-IsKeyed now s v);
  save_added = λ now key k p s s' v e. insert_done now key k p s s' v e;
}
