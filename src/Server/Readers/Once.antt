-- ===== src/Server/Readers/Once.antt =====
-- A paste that burns is delivered once.
use own_pastebin.Prelude.{
  ◌≤◌, Bool, true, false, some, [], ◌≡◌, inl, inr, refl, arith, Bool-cases, Text, text_eq,
}
use own_pastebin.Server.Store.{Paste, Table, find, save, delete, peek_meta, cleanup}
use own_pastebin.Server.Store.View.{find-cleanup, IsKeyed, save_done, save-IsKeyed, cleanup-IsKeyed}
use own_pastebin.Server.Readers.{
  taking, reading, checking, Pool, arrive, take_step, read_step, check_step, peeked, checked,
}
use own_pastebin.Server.Store.Cases.{get_cases, take_cases}
use own_pastebin.Server.Readers.Steps.{
  Step, arrived, took, got, saved, removed, cleaned, ticked, Reach, at_start, and_then,
}
use own_pastebin.Server.Readers.Burning.{
  count, IsBurning, wait-IsBurning, delete-IsBurning, taken-IsBurning, read-IsBurning, other_key,
  plain_key, ended-IsBurning,
}

module _ (key : Text) where
  take_step-IsBurning :
      (ok : Bool) (id : Text) (s : Pool) → IsBurning key s → IsBurning key (take_step ok id s)
  unfolding take_step
  take_step-IsBurning false id s v = v
  take_step-IsBurning true id s v = elim (take_cases s.clock id s.table) [
    | inl e ↦ rw e v
    | inr (p, f, e) ↦ rw e (taken-IsBurning key id p s f v)
  ]

  read_step-IsBurning :
      (ok : Bool) (id : Text) (s : Pool)
      → text_eq id key ≡ false
      → IsBurning key s
      → IsBurning key (read_step ok id s)
  unfolding read_step
  read_step-IsBurning false id s h v = v
  read_step-IsBurning true id s h v = elim (get_cases s.clock id s.table) [
    | inl e ↦ rw e v
    | inr (inl e) ↦ rw e (delete-IsBurning key id s v)
    | inr (inr (p, f, e)) ↦ rw e (read-IsBurning key id p s h v)
  ]

  checked-IsBurning :
      (id : Text) (p : Paste) (s : Pool)
      → find id s.table ≡ some p
      → IsBurning key s
      → IsBurning key (checked id (some p, s.table) s)
  checked-IsBurning id p s f v = elim (Bool-cases p.burn) [
    | inl h ↦ simp h (wait-IsBurning key (taking id) s refl v)
    | inr h ↦ simp h (read-IsBurning key id p s (other_key key id p s f h v) v)
  ]

  check_step-IsBurning :
      (ok : Bool) (id : Text) (s : Pool) → IsBurning key s → IsBurning key (check_step ok id s)
  unfolding check_step
  check_step-IsBurning false id s v = v
  check_step-IsBurning true id s v = elim (get_cases s.clock id s.table) [
    | inl e ↦ rw e v
    | inr (inl e) ↦ rw e (delete-IsBurning key id s v)
    | inr (inr (p, f, e)) ↦ rw e (checked-IsBurning id p s f v)
  ]

  peeked-IsBurning :
      (id : Text) (p : Paste) (s : Pool)
      → find id s.table ≡ some p
      → IsBurning key s
      → IsBurning key (peeked id (some (record p { content = [] }), s.table) s)
  peeked-IsBurning id p s f v = elim (Bool-cases p.burn) [
    | inl h ↦ simp h (wait-IsBurning key (taking id) s refl v)
    | inr h ↦ simp h (wait-IsBurning key (reading id) s (other_key key id p s f h v) v)
  ]

  arrive-IsBurning :
      (ok : Bool) (id : Text) (s : Pool) → IsBurning key s → IsBurning key (arrive ok id s)
  unfolding arrive peek_meta
  arrive-IsBurning false id s v = wait-IsBurning key (checking id) s refl v
  arrive-IsBurning true id s v = elim (get_cases s.clock id s.table) [
    | inl e ↦ rw e (wait-IsBurning key (checking id) s refl v)
    | inr (inl e) ↦ rw e (
        wait-IsBurning key (checking id) (record s { table = delete id s.table }) refl
          (delete-IsBurning key id s v))
    | inr (inr (p, f, e)) ↦ rw e (peeked-IsBurning id p s f v)
  ]

  saved-IsBurning :
      (id : Text) (p : Paste) (rows : Table) (s : Pool)
      → text_eq id key ≡ false
      → save id p s.table ≡ some rows
      → IsBurning key s
      → IsBurning key (record s { table = rows })
  unfolding find
  saved-IsBurning id p rows s h e v =
      let (free, added) = save_done id p s.table rows e in
      record {
        delivered_once = rw added (rw h v.delivered_once);
        row_burns = rw added (rw h v.row_burns);
        none_plain = v.none_plain;
        keyed = save-IsKeyed id p s.table rows e v.keyed;
      }

  cleaned-IsBurning :
      (s : Pool) → IsBurning key s → IsBurning key (record s { table = cleanup s.clock s.table })
  cleaned-IsBurning s v = record {
    delivered_once = ground (arith, find-cleanup s.clock key s.table v.keyed, v.delivered_once);
    row_burns = ground (arith, find-cleanup s.clock key s.table v.keyed, v.row_burns);
    none_plain = v.none_plain;
    keyed = cleanup-IsKeyed s.clock s.table v.keyed;
  }

  Step-IsBurning : {s t : Pool} → Step key s t → IsBurning key s → IsBurning key t
  Step-IsBurning (arrived ok id s) v = arrive-IsBurning ok id s v
  Step-IsBurning (took ok id rest s e) v =
      take_step-IsBurning ok id (record s { pending = rest })
        (ended-IsBurning key (taking id) rest s e v)
  Step-IsBurning (got ok id rest s e) v =
      read_step-IsBurning ok id (record s { pending = rest }) (plain_key key id rest s e v)
        (ended-IsBurning key (reading id) rest s e v)
  Step-IsBurning (Step.checked ok id rest s e) v =
      check_step-IsBurning ok id (record s { pending = rest })
        (ended-IsBurning key (checking id) rest s e v)
  Step-IsBurning (saved id p rows s h e) v = saved-IsBurning id p rows s h e v
  Step-IsBurning (removed id s) v = delete-IsBurning key id s v
  Step-IsBurning (cleaned s) v = cleaned-IsBurning s v
  Step-IsBurning (ticked n s) v = record {
    delivered_once = v.delivered_once;
    row_burns = v.row_burns;
    none_plain = v.none_plain;
    keyed = v.keyed;
  }

  Reach-IsBurning : {s t : Pool} → Reach key s t → IsBurning key s → IsBurning key t
  Reach-IsBurning at_start v = v
  Reach-IsBurning (and_then r st) v = Step-IsBurning st (Reach-IsBurning r v)

  -- Of a paste that burns key at most one reader gets the content, however the database calls of any
  -- number of readers, uploads under other ids, deletions and the cleanup are interleaved, and
  -- whichever calls fail. (The history starts with the paste in the table, with no reader under
  -- way and nothing delivered; nothing else is saved under its id.)
  pub delivered_at_most_once :
      (s t : Pool) (p : Paste)
      → IsKeyed s.table
      → find key s.table ≡ some p
      → p.burn ≡ true
      → s.pending ≡ []
      → s.delivered ≡ []
      → Reach key s t
      → count key t.delivered ≤ 1
  delivered_at_most_once s t p k f h e d r =
      let start : IsBurning key s = record {
        delivered_once = rw (f, d) (omega arith);
        row_burns = rw f h;
        none_plain = rw e;
        keyed = k;
      } in
      omega (arith, (Reach-IsBurning r start).delivered_once)
