-- ===== src/Decrypt/Paste.antt =====
-- The whole way of an encrypted paste: the form, the POST of `handleSend`, and the decrypt button of
-- the paste's page, web/static/js/custom.js. That the server shows the body of the POST in the code
-- block is a hypothesis.
use own_pastebin.Prelude.{ℕ, false, Option, none, some, List, [], ◌∷◌, ◌≡◌, arith, length, Text}
use own_pastebin.Crypto.{aes_encrypt}
use own_pastebin.Crypto.Platform.{Browser, StartsUnmarked}
use own_pastebin.Page.{Env}
use own_pastebin.Send.{
  Settings, Form, Post, encrypting, Sender, handle_send, encrypted, send_uri, do_send,
}
use own_pastebin.Plugins.{Outcome}
use own_pastebin.Decrypt.{View, close_after, decrypt_click}
use own_pastebin.Decrypt.Laws.{decrypt_click_opens}

-- The body of the last POST.
abbrev pub last_body : List Post → Option Text
last_body [] = none
last_body (post ∷ _) = some post.body

abbrev pub filled : Option Text → Text → Text → Form
filled language password content = record {
  language = language;
  password = some password;
  content = some content;
}

-- What is posted from the sender after the click, when the payload is there.
abbrev pub posted_body : Env → Form → Settings → (written : Text) → Sender → Option Text
posted_body env form settings written s =
    last_body
      (encrypted env (send_uri env.prefix form.language settings) written
        (handle_send env form settings s)).posts

module _ (b : Browser) (run : Outcome) (env : Env) (salt iv written : Text) (settings : Settings)
    (language : Option Text) (p : ℕ) (ps : Text) (c : ℕ) (cs : Text) (s : Sender) (v : View) where
  -- With a password and a text that are not empty in the form, and no request under way, a click
  -- starts the encryption of this text with this password. If the payload that results is posted by
  -- the callback, and the code block of the paste's page shows what was posted, a click on the
  -- decrypt button with the same password shows the text, however the call of `init_plugins` ends,
  -- and closes the modal if it returns.
  -- (Salt and nonce have 16 and 12 bytes, the text has no lone surrogate and no byte order mark at
  -- its start.)
  pub paste_opens :
      length salt ≡ 16
      → length iv ≡ 12
      → b.IsWellFormed (c ∷ cs)
      → StartsUnmarked (c ∷ cs)
      → s.in_flight ≡ false
      → aes_encrypt b salt iv (c ∷ cs) (p ∷ ps) ≡ some written
      → v.block ≡ posted_body env (filled language (p ∷ ps) (c ∷ cs)) settings written s
      → ((handle_send env (filled language (p ∷ ps) (c ∷ cs)) settings s).pending
          ≡ encrypting (send_uri env.prefix language settings) (c ∷ cs) (p ∷ ps) ∷ s.pending)
        × (decrypt_click b run (some (p ∷ ps)) v
            ≡ close_after run (record v { block = some (c ∷ cs) }))
  unfolding handle_send encrypted do_send
  paste_opens hs hi wf um idle he hv =
      (ground arith, decrypt_click_opens b run salt iv (p ∷ ps) written v hs hi hv c cs wf um he)
