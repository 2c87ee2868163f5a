-- ===== src/Delete.antt =====
-- The delete confirmation of a paste's page, web/static/js/custom.js: the click handler with its
-- guard flag, and the three callbacks behind the request.
--
-- `pending` lists the waits that are under way: for the response, or for the response's JSON.
-- A callback runs when its wait ends. `encode` is the browser's `encodeURI`, a parameter.
pub mod Safety
mod Tests
use own_pastebin.Prelude.{
  ℕ, ◌+◌, Bool, true, false, Option, none, some, List, [], ◌∷◌, ◌==◌, if◌then◌else◌, Text, codes,
}
use own_pastebin.Page.{Env, say, say_status, is_ok}
use own_pastebin.Flash.{flash_uri, danger, glyph_failed}

pub data Wait : Type 0 where
  fetching parsing : Wait

-- The decoded JSON: only whether it counts as false matters.
pub data Json : Type 0 where
  falsy truthy : Json

pub record Deleter : Type 0 where
  pub in_flight : Bool  -- deleteInFlight
  pub disabled : Bool  -- deleteConfirmBtn.disabled
  pub pending : List Wait
  pub location : Option Text  -- the address that the page was sent to last
  pub requests : ℕ  -- DELETE requests sent

unfoldable pub start : Deleter
start = record { in_flight = false; disabled = false; pending = []; location = none; requests = 0 }

unfoldable pub click : Deleter → Deleter
click s = if s.in_flight then s else record s {
  in_flight = true;
  disabled = true;
  pending = fetching ∷ s.pending;
  requests = s.requests + 1;
}

module _ (env : Env) where
  abbrev pub refusal : ℕ → Text
  refusal status =
      if status == 403
      then say env (codes "msg-delete-protected")
      else say_status env (codes "msg-delete-failed-http") status

  abbrev pub fail_with : Text → Deleter → Deleter
  fail_with msg s = record s {
    in_flight = false;
    disabled = false;
    location = some (env.encode (flash_uri env.prefix danger glyph_failed msg));
  }

  -- The first `then`. The wait for the response is over.
  unfoldable pub respond : ℕ → Deleter → Deleter
  respond status s =
      if is_ok status
      then record s { pending = parsing ∷ s.pending }
      else fail_with (refusal status) s

  -- The second `then`.
  unfoldable pub finish : Json → Deleter → Deleter
  finish falsy s = s
  finish truthy s = record s {
    location = some (
        env.encode (
          flash_uri env.prefix (codes "info") (codes "fas fa-info-circle")
            (say env (codes "msg-delete-success"))));
  }

  -- The `catch`: no response, or a body that is no JSON.
  unfoldable pub fail : Deleter → Deleter
  fail s = fail_with (say env (codes "msg-delete-failed")) s
