-- ===== src/Server/Contract/Sqlite.antt =====
-- The SQLite functions keep the promise of `Storage`.
use own_pastebin.Prelude.{ℕ, Option, none, some, refl, arith, inl, inr, Bool-cases, Text}
use own_pastebin.Server.Store.{
  Paste, Table, find, save, get, peek_meta, get_and_delete, delete, cleanup, answer, take_live,
  is_over,
}
use own_pastebin.Server.Store.View.{live, IsKeyed, delete-IsKeyed, cleanup-IsKeyed, save-IsKeyed}
use own_pastebin.Server.Store.Refine.{reads_live, keeps_live, saves_live}
use own_pastebin.Server.Contract.{Backend, IsStorage}

abbrev pub sqlite : Backend Table
sqlite = record {
  get = get;
  peek_meta = peek_meta;
  get_and_delete = get_and_delete;
  delete = delete;
  save = save;
  cleanup = cleanup;
}

answer-IsKeyed :
    (now : ℕ) (key : Text) (rows : Table) (x : Option Paste)
    → IsKeyed rows
    → IsKeyed (answer now key rows x).1
answer-IsKeyed now key rows none v = v
answer-IsKeyed now key rows (some p) v = elim (Bool-cases (is_over now p.expire_at)) [
  | inl e ↦ rw e (delete-IsKeyed key rows v)
  | inr e ↦ rw e v
]

take_live-IsKeyed :
    (now : ℕ) (key : Text) (rows : Table) (x : Option Paste)
    → IsKeyed rows
    → IsKeyed (take_live now key rows x).1
take_live-IsKeyed now key rows none v = v
take_live-IsKeyed now key rows (some p) v = elim (Bool-cases (is_over now p.expire_at)) [
  | inl e ↦ rw e v
  | inr e ↦ rw e (delete-IsKeyed key rows v)
]

-- The SQLite storage keeps the promise of the interface `Storage`, on tables in which no id
-- stands twice: the three readings return the paste that is there at the time, `PeekMeta` without its
-- content; at each later time `Get`, `PeekMeta` and the cleanup have left every paste, `Delete` and
-- `GetAndDelete` all but the one with the key; a `Save` that succeeds found no paste there and
-- adds its own, which is there until it expires; and after each of them no id stands twice.
pub sqlite-IsStorage : IsStorage sqlite IsKeyed live
unfolding get peek_meta get_and_delete live
sqlite-IsStorage = record {
  get_read = λ now key s v. (reads_live now key s).0;
  get_kept = λ now later key k s v h. (keeps_live now later key k s h v).0;
  get_valid = λ now key s v. answer-IsKeyed now key s (find key s) v;
  peek_read = λ now key s v. (reads_live now key s).1;
  peek_kept = λ now later key k s v h. (keeps_live now later key k s h v).1;
  peek_valid = λ now key s v. answer-IsKeyed now key s (find key s) v;
  take_read = λ now key s v. (reads_live now key s).2;
  take_gone = λ now later key k s v h. (keeps_live now later key k s h v).4;
  take_valid = λ now key s v. take_live-IsKeyed now key s (find key s) v;
  delete_gone = λ now key k s v. (keeps_live now now key k s (omega arith) v).3;
  delete_valid = λ key s v. delete-IsKeyed key s v;
  cleanup_kept = λ now later k s v h. (keeps_live now later k k s h v).2;
  cleanup_valid = λ now s v. cleanup-IsKeyed now s v;
  save_added = λ now key k p s s' v e.
      let (absent, added) = saves_live now key k p s s' e in
      (rw absent refl, added, save-IsKeyed key p s s' e v);
}
