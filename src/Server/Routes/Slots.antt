-- ===== src/Server/Routes/Slots.antt =====
-- The slots for uploads, `uploadSem` of `handleCreatePaste`: many uploads at the same time.
--
-- The channel holds `taken` tokens. A handler that got one works until it returns, and then its
-- deferred function gives the token back; `working` are those handlers. The clock of a handler is
-- read when it finishes.
pub mod Laws
mod Tests
use own_pastebin.Prelude.{
  ℕ, zero, suc, ◌+◌, ◌-◌, ◌≤◌, ◌≡◌, ◌≢◌, ◌⊎◌, ◌∙◌, Option-cases, refl, sym, ap, arith, Bool, true,
  false, Bool-cases, inl, inr, Option, none, some, List, [], ◌∷◌, if◌then◌else◌, ltb, length, take,
  Text, text_eq, text_eq_sound,
}
use mathlib.Core.Option
use own_pastebin.Server.Store.{Paste, Table, find}
use own_pastebin.Server.Routes.{App, Upload, Reply, refused, is_above, handle_create}
use own_pastebin.Server.Routes.Create.{IsSaved, handle_create-IsSaved}

pub record Pool : Type 0 where
  pub taken : ℕ
  pub working : List Upload
  pub rows : Table

-- One of the handlers that work, and the others.
abbrev pub kept_first : Upload → Option (Upload × List Upload) → Option (Upload × List Upload)
kept_first u none = none
kept_first u (some (v, us)) = some (v, u ∷ us)

abbrev pub pull : ℕ → List Upload → Option (Upload × List Upload)
pull i [] = none
pull zero (u ∷ us) = some (u, us)
pull (suc i) (u ∷ us) = kept_first u (pull i us)

module _ (app : App) (slots : ℕ) where
  -- `select` on the channel: a slot is taken, or the answer is 503.
  abbrev pub acquire : Upload → Pool → Option Reply × Pool
  acquire u s =
      if ltb s.taken slots
      then (none, record s { taken = s.taken + 1; working = u ∷ s.working })
      else (some (refused 503), s)

  abbrev pub arrive_read : Upload → Pool → Option Text → Option Reply × Pool
  arrive_read u s none = (some (refused 500), s)
  arrive_read u s (some []) = (some (refused 400), s)
  arrive_read u s (some (c ∷ raw)) = acquire u s

  -- The handler up to the slot; `none` is a handler that goes on.
  unfoldable pub arrive : Upload → Pool → Option Reply × Pool
  arrive u s =
      if is_above app 0 u.content_length
      then (some (refused 413), s)
      else arrive_read u s (Option.map (take app.max_paste_size) u.body)

  -- The rest of a handler, whichever branch returns, with its deferred function.
  abbrev pub finish_pulled : ℕ → Pool → Option (Upload × List Upload) → Option Reply × Pool
  finish_pulled now s none = (none, s)
  finish_pulled now s (some (u, us)) =
      let (reply, rows) = handle_create app now (record u { slot_free = true }) s.rows in
      (some reply, record { taken = s.taken - 1; working = us; rows = rows })

  unfoldable pub finish : ℕ → ℕ → Pool → Option Reply × Pool
  finish now i s = finish_pulled now s (pull i s.working)

  pub data Step : Pool → Pool → Type 0 where
    arrives : (u : Upload) (s : Pool) → Step s (arrive u s).1
    finishes : (now i : ℕ) (s : Pool) → Step s (finish now i s).1

  pub data Reach (s : Pool) : Pool → Type 0 where
    at_start : Reach s s
    and_then : {t v : Pool} → Reach s t → Step t v → Reach s v
