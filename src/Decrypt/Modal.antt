-- ===== src/Decrypt/Modal.antt =====
-- The password modal with several attempts: the two halves of the decrypt button's handler apart, the
-- Enter key in the password's field, the clicks beside the modal (web/static/js/custom.js), and the
-- buttons that open and close it (web/templates/index.html).
--
-- `waiting` lists the decryptions under way, each with the text and the password that it was started
-- with. The page keeps its code block.
use own_pastebin.Prelude.{
  Bool, false, Option, List, [], ◌∷◌, or_else, Text, codes, text_eq, if◌then◌else◌,
}
use own_pastebin.Crypto.{aes_decrypt}
use own_pastebin.Crypto.Platform.{Browser}
use own_pastebin.Plugins.{Outcome}
use own_pastebin.Decrypt.{View, cipher_text, decrypted}

pub record Dialog : Type 0 where
  pub view : View
  pub waiting : List (Text × Text)

-- The click up to the decryption.
unfoldable pub try_password : Option Text → Dialog → Dialog
try_password password d = record d {
  waiting = (cipher_text d.view, or_else password []) ∷ d.waiting;
}

-- A decryption ends; `rest` are the others.
unfoldable pub answer : Browser → Outcome → Text × Text → List (Text × Text) → Dialog → Dialog
answer b run (cipher, password) rest d = record {
  view = decrypted run (aes_decrypt b cipher password) d.view;
  waiting = rest;
}

-- A key in the field of the password; the page may lack the button.
unfoldable pub key_down : Text → Bool → Option Text → Dialog → Dialog
unfolding try_password
key_down key has_button password d =
    if text_eq key (codes "Enter") then (if has_button then try_password password d else d) else d

abbrev pub set_shown : Bool → Dialog → Dialog
set_shown shown d = record d { view = record (d.view) { modal_shown = shown } }

-- A click in the modal; on its background, outside of its content, it closes it.
unfoldable pub background_click : Bool → Dialog → Dialog
background_click on_background d = if on_background then set_shown false d else d
