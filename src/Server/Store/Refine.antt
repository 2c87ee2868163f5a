-- ===== src/Server/Store/Refine.antt =====
-- The storage as a map from ids to pastes that are there at a time: what each function returns and
-- leaves behind.
use own_pastebin.Prelude.{
  ℕ, ◌≤◌, Option, none, some, ◌≡◌, refl, arith, if◌then◌else◌, Text, text_eq, text_eq_sound,
}
use own_pastebin.Server.Store.{
  Paste, Table, find, delete, get, peek_meta, get_and_delete, save, cleanup, answer, take_live,
  without_content,
}
use own_pastebin.Server.Store.View.{
  visible, live, find-delete, is_over_mono, live-cleanup, live-delete, save_done, IsKeyed,
}

answer_read :
    (now : ℕ) (key : Text) (rows : Table) (x : Option Paste)
    → (answer now key rows x).0 ≡ visible now x
answer_read now key rows none = refl
answer_read now key rows (some p) = ground arith

get_read : (now : ℕ) (key : Text) (rows : Table) → (get now key rows).0 ≡ live now key rows
unfolding get live
get_read now key rows = answer_read now key rows (find key rows)

take_read :
    (now : ℕ) (key : Text) (rows : Table) (x : Option Paste)
    → (take_live now key rows x).0 ≡ visible now x
take_read now key rows none = refl
take_read now key rows (some p) = ground arith

-- What the three reading functions return is the paste that is there at the time, `PeekMeta` without
-- its content.
pub reads_live :
    (now : ℕ) (key : Text) (rows : Table)
    → ((get now key rows).0 ≡ live now key rows)
      × ((peek_meta now key rows).0 ≡ without_content (live now key rows))
      × ((get_and_delete now key rows).0 ≡ live now key rows)
unfolding peek_meta get_and_delete live
reads_live now key rows =
    (get_read now key rows, rw (get_read now key rows) refl, take_read now key rows (find key rows))

module _ (now later : ℕ) (key k : Text) (rows : Table) (h : now ≤ later) where
  answer_kept :
      (x : Option Paste)
      → find key rows ≡ x
      → live later k (answer now key rows x).1 ≡ live later k rows
  unfolding live
  answer_kept none e = refl
  answer_kept (some p) e =
      ground
        (arith, text_eq_sound key k, find-delete key k rows, is_over_mono now later p.expire_at h)

  take_kept :
      (x : Option Paste)
      → find key rows ≡ x
      → live later k (take_live now key rows x).1
        ≡ (if text_eq key k then none else live later k rows)
  unfolding live
  take_kept none e = ground (arith, text_eq_sound key k)
  take_kept (some p) e =
      ground
        (arith, text_eq_sound key k, find-delete key k rows, is_over_mono now later p.expire_at h)

  get_kept : live later k (get now key rows).1 ≡ live later k rows
  unfolding get
  get_kept = answer_kept (find key rows) refl

-- At a later time: after `Get`, `PeekMeta` and the cleanup the same pastes are there, after
-- `Delete` and `GetAndDelete` the same but the one with the key. (No id stands twice in the table.)
pub keeps_live :
    (now later : ℕ) (key k : Text) (rows : Table)
    → now ≤ later
    → IsKeyed rows
    → (live later k (get now key rows).1 ≡ live later k rows)
      × (live later k (peek_meta now key rows).1 ≡ live later k rows)
      × (live later k (cleanup now rows) ≡ live later k rows)
      × (live later k (delete key rows) ≡ (if text_eq key k then none else live later k rows))
      × (live later k (get_and_delete now key rows).1
          ≡ (if text_eq key k then none else live later k rows))
unfolding peek_meta get_and_delete
keeps_live now later key k rows h v = (
  get_kept now later key k rows h,
  get_kept now later key k rows h,
  live-cleanup now later k rows v h,
  live-delete later key k rows,
  take_kept now later key k rows h (find key rows) refl,
)

-- A paste that is saved is there from then on until it expires, no other key changes, and no paste
-- is overwritten: the id was not in the table.
pub saves_live :
    (later : ℕ) (key k : Text) (p : Paste) (rows rows' : Table)
    → save key p rows ≡ some rows'
    → (find key rows ≡ none)
      × (live later k rows' ≡ (if text_eq key k then visible later (some p) else live later k rows))
unfolding live find
saves_live later key k p rows rows' h =
    let (absent, e) = save_done key p rows rows' h in (absent, ground (arith, absent))
