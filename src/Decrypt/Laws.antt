-- ===== src/Decrypt/Laws.antt =====
-- What the decrypt button shows of a payload that the page wrote.
use own_pastebin.Prelude.{
  ℕ, true, false, some, [], ◌∷◌, ◌≡◌, refl, length, Text, codes, text_eq, trim,
}
use own_pastebin.Crypto.{aes_encrypt, aes_decrypt}
use own_pastebin.Crypto.Platform.{Browser, StartsUnmarked}
use own_pastebin.Crypto.Trim.{trim_same}
use own_pastebin.Crypto.RoundTrip.{aes_decrypt-aes_encrypt, aes_encrypt-IsWritten, written-no_space}
use own_pastebin.Plugins.{Window, Outcome, names, thrown, init_plugins}
use own_pastebin.Server.Assets.{page_imports}
use own_pastebin.Server.Assets.Inits.{page_init_plugins-Throws}
use own_pastebin.Decrypt.{View, set_hidden, decrypt_click, page_view, close_after}

module _ (b : Browser) (run : Outcome) (salt iv password written : Text) (v : View)
    (hs : length salt ≡ 16) (hi : length iv ≡ 12) (hv : v.block ≡ some written) where
  read_back :
      (plaintext : Text)
      → b.IsWellFormed plaintext
      → StartsUnmarked plaintext
      → aes_encrypt b salt iv plaintext password ≡ some written
      → aes_decrypt b (trim written) password ≡ some plaintext
  read_back plaintext wf um h =
      rw
        (trim_same written
          (written-no_space b (aes_encrypt-IsWritten b salt iv plaintext password written h)))
        (aes_decrypt-aes_encrypt b salt iv plaintext password written hs hi wf um h)

  -- A click with the right password on a page whose code block holds a payload that `aesEncrypt`
  -- wrote for a text that is not empty replaces the payload by that text, whatever the call of
  -- `init_plugins` does; if the call returns, the modal and the alert are hidden, and if it throws,
  -- nothing else changes. (Salt and nonce have 16 and 12 bytes, the text has no lone surrogate
  -- and no byte order mark at its start.)
  pub decrypt_click_opens :
      (c : ℕ) (s : Text)
      → b.IsWellFormed (c ∷ s)
      → StartsUnmarked (c ∷ s)
      → aes_encrypt b salt iv (c ∷ s) password ≡ some written
      → decrypt_click b run (some password) v ≡ close_after run (record v { block = some (c ∷ s) })
  unfolding decrypt_click
  decrypt_click_opens c s wf um h = rw (hv, read_back (c ∷ s) wf um h)

  -- A payload that `aesEncrypt` wrote for the empty text cannot be opened: with the right password
  -- the payload stays, the modal stays and the alert is shown, as for a wrong password.
  pub decrypt_click_empty :
      b.IsWellFormed []
      → aes_encrypt b salt iv [] password ≡ some written
      → decrypt_click b run (some password) v
        ≡ record v { alert_hidden = set_hidden false v.alert_hidden }
  unfolding decrypt_click
  decrypt_click_empty wf h = rw (hv, read_back [] wf tt h)

-- On the page that the server renders for an encrypted paste whose language is not mermaid, the
-- right password shows the text, but the modal stays open, since the call of `init_plugins` throws:
-- for each window, each prefix, and each depth of calls that the engine allows.
pub modal_stays :
    (b : Browser) (w : Window) (prefix lang : Text) (depth : ℕ) (salt iv password written : Text)
    (c : ℕ) (s : Text)
    → length salt ≡ 16
    → length iv ≡ 12
    → text_eq lang (codes "mermaid") ≡ false
    → b.IsWellFormed (c ∷ s)
    → StartsUnmarked (c ∷ s)
    → aes_encrypt b salt iv (c ∷ s) password ≡ some written
    → decrypt_click b
        (init_plugins w (names (page_imports prefix lang).inits) depth [])
        (some password)
        (page_view lang written)
      ≡ page_view lang (c ∷ s)
unfolding page_view
modal_stays b w prefix lang depth salt iv password written c s hs hi hl wf um h =
    let (calls, e) = page_init_plugins-Throws w prefix lang depth in
    let shown : (page_view lang written).block ≡ some written = rw hl refl in
    rw
      (
        e,
        decrypt_click_opens b (thrown calls) salt iv password written (page_view lang written) hs hi
            shown c s wf um h,
        hl,
      )
      refl

-- On the page that the server renders for an encrypted paste whose language is mermaid no password
-- opens the paste: nothing but the alert changes.
pub mermaid_stays :
    (b : Browser) (run : Outcome) (lang written password : Text)
    → text_eq lang (codes "mermaid") ≡ true
    → decrypt_click b run (some password) (page_view lang written)
      ≡ record (page_view lang written) { alert_hidden = some false }
unfolding decrypt_click page_view aes_decrypt
mermaid_stays b run lang written password hl = rw hl refl
