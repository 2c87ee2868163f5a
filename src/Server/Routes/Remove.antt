-- ===== src/Server/Routes/Remove.antt =====
-- Deletion and the protection from it; bodies that are longer than the limit.
use own_pastebin.Prelude.{
  ℕ, zero, suc, ◌/◌, ◌≤◌, Bool, true, false, ◌&&◌, Option, none, some, [], ◌∷◌, ◌++◌, ◌≡◌, inl, inr,
  refl, ap, arith, Bool-cases, if◌then◌else◌, length, take, Text, text_eq,
}
use own_pastebin.Server.Ttl.{nanoseconds}
use own_pastebin.Server.Store.{Paste, Table, peek_meta, delete, without_content}
use own_pastebin.Server.Store.View.{live, live-delete, IsKeyed}
use own_pastebin.Server.Store.Refine.{reads_live, keeps_live}
use own_pastebin.Server.Routes.{
  App, Upload, Reply, refused, deleted, remove_known, handle_create, handle_delete,
}
use own_pastebin.Server.Routes.Read.{all_answered}

abbrev pub is_protected : Option Paste → Bool
is_protected none = false
is_protected (some p) = p.protected

module _ (app : App) (now later : ℕ) (id k : Text) (rows : Table) where
  abbrev pub is_blocked : Bool
  is_blocked = app.protected_enabled && is_protected (live (now / nanoseconds) id rows)

  abbrev choose : Bool → Table → Reply × Table
  choose b rows' = if b then (refused 403, rows') else (deleted, delete id rows')

  removed_if :
      (b : Bool) (rows' : Table)
      → live later k rows' ≡ live later k rows
      → ((choose b rows').0 ≡ (if b then refused 403 else deleted))
        × (live later k (choose b rows').1
            ≡ (if b then live later k rows else if text_eq id k then none else live later k rows))
  removed_if true rows' e = (refl, e)
  removed_if false rows' e = (refl, rw (live-delete later id k rows') (rw e))

  removed :
      (x : Option Paste) (rows' : Table)
      → live later k rows' ≡ live later k rows
      → ((remove_known app now true id (without_content x, rows')).0
          ≡ (if is_protected x then refused 403 else deleted))
        × (live later k (remove_known app now true id (without_content x, rows')).1 ≡ (
            if is_protected x
            then live later k rows
            else if text_eq id k
            then none
            else live later k rows))
  removed none rows' e = removed_if false rows' e
  removed (some p) rows' e = removed_if p.protected rows' e

  peek_pair : peek_meta (now / nanoseconds) id rows ≡ (
    without_content (live (now / nanoseconds) id rows),
    (peek_meta (now / nanoseconds) id rows).1,
  )
  peek_pair =
      ap (λ (x : Option Paste). (x, (peek_meta (now / nanoseconds) id rows).1))
        (reads_live (now / nanoseconds) id rows).1

  -- When the database answers: a DELETE of a paste that is there and protected, on a server with the
  -- feature switched on, is refused with 403 and at no later time any paste is missing; each other
  -- DELETE is accepted, the paste is gone at each later time, and no other one is missing.
  pub handle_delete_guarded :
      now / nanoseconds ≤ later
      → IsKeyed rows
      → ((handle_delete app now all_answered id rows).0
          ≡ (if is_blocked then refused 403 else deleted))
        × (live later k (handle_delete app now all_answered id rows).1 ≡ (
            if is_blocked
            then live later k rows
            else if text_eq id k
            then none
            else live later k rows))
  unfolding handle_delete
  handle_delete_guarded h v = elim (Bool-cases app.protected_enabled) [
    | inl e ↦ rw e (
        rw peek_pair (
          removed (live (now / nanoseconds) id rows) (peek_meta (now / nanoseconds) id rows).1
            (keeps_live (now / nanoseconds) later id k rows h v).1))
    | inr e ↦ rw e (refl, live-delete later id k rows)
  ]

take_cut : (n : ℕ) (s t : Text) → length s ≡ n → take n (s ++ t) ≡ take n s
take_cut zero s t h = refl
take_cut (suc n) [] t h = absurd (omega arith)
take_cut (suc n) (c ∷ s) t h = rw (take_cut n s t (omega arith))

-- A body without a declared length that is longer than the limit is not refused: the server does
-- with it exactly what it does with its first `max_paste_size` bytes.
pub handle_create_cut :
    (app : App) (now : ℕ) (u : Upload) (raw rest : Text) (rows : Table)
    → length raw ≡ app.max_paste_size
    → handle_create app now (record u { content_length = none; body = some (raw ++ rest) }) rows
      ≡ handle_create app now (record u { content_length = none; body = some raw }) rows
unfolding handle_create
handle_create_cut app now u raw rest rows h = rw (take_cut app.max_paste_size raw rest h)
