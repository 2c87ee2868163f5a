-- ===== src/Decrypt.antt =====
-- The decrypt button of the password modal of web/static/js/custom.js. `none` stands for an element
-- that the page lacks. The click reads the text (`cipher_text`); the callback of the decryption
-- gets its result (`decrypted`), and calls `init_plugins`, which may throw: what stands behind the
-- call is then not reached. `run` is how that call ends.
pub mod Laws
pub mod Paste
pub mod Modal
pub mod Attempts
mod Tests
use own_pastebin.Prelude.{
  Bool, true, false, Option, none, some, [], ◌∷◌, or_else, Text, codes, text_eq, if◌then◌else◌,
  trim,
}
use own_pastebin.Crypto.{aes_decrypt}
use own_pastebin.Crypto.Platform.{Browser}
use own_pastebin.Plugins.{Outcome, returned, thrown}

pub record View : Type 0 where
  pub block : Option Text  -- the text of the code block
  pub textarea : Option Text
  pub alert_hidden : Option Bool  -- the class w3-hide of the alert
  pub modal_shown : Bool

abbrev pub text_of : Option Text → Option Text → Text
text_of (some s) textarea = trim s
text_of none (some s) = trim s
text_of none none = []

unfoldable pub cipher_text : View → Text
cipher_text v = text_of v.block v.textarea

abbrev pub set_hidden : Bool → Option Bool → Option Bool
set_hidden hidden none = none
set_hidden hidden (some _) = some hidden

-- `element.textContent = text` or `element.value = text`
abbrev pub put : Text → Option Text → Option Text
put text none = none
put text (some _) = some text

-- What stands behind the call.
abbrev pub close : View → View
close v = record v { modal_shown = false; alert_hidden = set_hidden true v.alert_hidden }

abbrev pub close_after : Outcome → View → View
close_after (returned calls) v = close v
close_after (thrown calls) v = v

-- The text goes to the code block, or to the textarea where there is no block.
abbrev pub show_text : Outcome → Text → Option Text → View → View
show_text run s (some _) v = close_after run (record v { block = some s })
show_text run s none v = close (record v { textarea = put s v.textarea })

-- The callback: no text and an empty text are a failure.
unfoldable pub decrypted : Outcome → Option Text → View → View
decrypted run none v = record v { alert_hidden = set_hidden false v.alert_hidden }
decrypted run (some []) v = record v { alert_hidden = set_hidden false v.alert_hidden }
decrypted run (some (c ∷ s)) v = show_text run (c ∷ s) v.block v

-- The click with its callback, where nothing else happens between the two.
unfoldable pub decrypt_click : Browser → Outcome → Option Text → View → View
unfolding cipher_text decrypted
decrypt_click b run password v =
    decrypted run (aes_decrypt b (cipher_text v) (or_else password [])) v

-- The elements of the page that the server renders for an encrypted paste, from its language and
-- its text: web/templates/index.html.
unfoldable pub page_view : Text → Text → View
page_view lang code = record {
  block = if text_eq lang (codes "mermaid") then none else some code;
  textarea = none;
  alert_hidden = some true;
  modal_shown = true;
}
