-- ===== src/Copy.antt =====
-- The copy button of web/static/js/custom.js: the text that it copies, and its label, which changes
-- for 800 ms.
--
-- `timers` holds for each timer that runs the label that it will restore.
pub mod Laws
mod Tests
use own_pastebin.Prelude.{
  Bool, true, false, Option, none, some, List, [], ◌∷◌, ◌++◌, if◌then◌else◌, or_else, Text, codes,
}
use own_pastebin.I18n.Translate.{or_text}
use own_pastebin.Page.{Env, say}

-- Where the text goes: Prism's own button, the clipboard, or the fallback through a textarea.
pub data Copied : Type 0 where
  by_toolbar : Copied
  to_clipboard by_command : Text → Copied

-- The text of the code block, or of the textarea where that is empty or missing.
unfoldable pub copied_text : Option Text → Option Text → Text
copied_text block textarea = or_text (or_else block []) (or_else textarea [])

unfoldable pub copy : Bool → Bool → Option Text → Option Text → Copied
unfolding copied_text
copy has_toolbar has_clipboard block textarea =
    if has_toolbar
    then by_toolbar
    else if has_clipboard
    then to_clipboard (copied_text block textarea)
    else by_command (copied_text block textarea)

pub record Button : Type 0 where
  pub label : Text
  pub disabled : Bool
  pub timers : List Text

-- What the handler does to the button, after the copying.
unfoldable pub press : Env → Button → Button
press env b = record {
  label = say env (codes "msg-copy-success");
  disabled = true;
  timers = b.timers ++ b.label ∷ [];
}

-- The timer with the given label fires.
unfoldable pub restore : Text → List Text → Button → Button
restore original rest b = record b { label = original; disabled = false; timers = rest }
