-- ===== src/Server/Readers/Burning.antt =====
-- The invariant of a paste that burns: it was delivered at most once, and not if it is still there.
use own_pastebin.Prelude.{
  ℕ, ◌+◌, ◌≤◌, Bool, true, false, ◌||◌, Option, none, some, List, [], ◌∷◌, ◌≡◌, refl, arith,
  if◌then◌else◌, Text, text_eq, text_eq_sound,
}
use own_pastebin.Server.Store.{Paste, find, delete}
use own_pastebin.Server.Store.View.{find-delete, IsKeyed, delete-IsKeyed}
use own_pastebin.Server.Readers.{Task, taking, reading, checking, Pool, wait_for}
use own_pastebin.Server.Readers.Steps.{Ends, here, later}

module _ (key : Text) where
  abbrev pub count : List (Text × Paste) → ℕ
  count [] = 0
  count ((id, p) ∷ ds) = (if text_eq id key then 1 else 0) + count ds

  abbrev pub present : Option Paste → ℕ
  present none = 0
  present (some p) = 1

  abbrev pub burns : Option Paste → Bool
  burns none = true
  burns (some p) = p.burn

  -- Whether a reader will fetch the paste with no look at its flag.
  abbrev pub is_plain : Task → Bool
  is_plain (taking id) = false
  is_plain (reading id) = text_eq id key
  is_plain (checking id) = false

  abbrev pub has_plain : List Task → Bool
  has_plain [] = false
  has_plain (w ∷ ws) = is_plain w || has_plain ws

  pub record IsBurning (s : Pool) : Type 0 where
    pub delivered_once : count s.delivered + present (find key s.table) ≤ 1
    pub row_burns : burns (find key s.table) ≡ true
    pub none_plain : has_plain s.pending ≡ false
    pub keyed : IsKeyed s.table

  has_plain-Ends :
      {w : Task} {ws rest : List Task}
      → Ends w ws rest
      → has_plain ws ≡ (is_plain w || has_plain rest)
  has_plain-Ends here = refl
  has_plain-Ends {w} (later {v} {rest = rest} e) = ground (arith, has_plain-Ends e)

  pub wait-IsBurning :
      (w : Task) (s : Pool) → is_plain w ≡ false → IsBurning s → IsBurning (wait_for w s)
  wait-IsBurning w s h v = record {
    delivered_once = v.delivered_once;
    row_burns = v.row_burns;
    none_plain = rw (h, v.none_plain);
    keyed = v.keyed;
  }

  pub delete-IsBurning :
      (id : Text) (s : Pool) → IsBurning s → IsBurning (record s { table = delete id s.table })
  delete-IsBurning id s v = record {
    delivered_once = ground (arith, find-delete id key s.table, v.delivered_once);
    row_burns = ground (arith, find-delete id key s.table, v.row_burns);
    none_plain = v.none_plain;
    keyed = delete-IsKeyed id s.table v.keyed;
  }

  pub taken-IsBurning :
      (id : Text) (p : Paste) (s : Pool)
      → find id s.table ≡ some p
      → IsBurning s
      → IsBurning (record s { table = delete id s.table; delivered = (id, p) ∷ s.delivered })
  taken-IsBurning id p s e v = record {
    delivered_once =
        ground (arith, find-delete id key s.table, text_eq_sound id key, v.delivered_once);
    row_burns = ground (arith, find-delete id key s.table, v.row_burns);
    none_plain = v.none_plain;
    keyed = delete-IsKeyed id s.table v.keyed;
  }

  pub read-IsBurning :
      (id : Text) (p : Paste) (s : Pool)
      → text_eq id key ≡ false
      → IsBurning s
      → IsBurning (record s { delivered = (id, p) ∷ s.delivered })
  read-IsBurning id p s e v = record {
    delivered_once = rw e (omega (arith, v.delivered_once));
    row_burns = v.row_burns;
    none_plain = v.none_plain;
    keyed = v.keyed;
  }

  -- A row that does not burn is not the key's.
  pub other_key :
      (id : Text) (p : Paste) (s : Pool)
      → find id s.table ≡ some p
      → p.burn ≡ false
      → IsBurning s
      → text_eq id key ≡ false
  other_key id p s e h v = ground (arith, text_eq_sound id key, v.row_burns)

  pub plain_key :
      (id : Text) (rest : List Task) (s : Pool)
      → Ends (reading id) s.pending rest
      → IsBurning s
      → text_eq id key ≡ false
  plain_key id rest s e v = ground (arith, has_plain-Ends e, v.none_plain)

  pub ended-IsBurning :
      (w : Task) (rest : List Task) (s : Pool)
      → Ends w s.pending rest
      → IsBurning s
      → IsBurning (record s { pending = rest })
  ended-IsBurning w rest s e v = record {
    delivered_once = v.delivered_once;
    row_burns = v.row_burns;
    none_plain = ground (arith, has_plain-Ends e, v.none_plain);
    keyed = v.keyed;
  }
