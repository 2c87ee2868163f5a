-- ===== src/Decrypt/Tests.antt =====
-- The decrypt button at an input: a payload that the small browser wrote.
use own_pastebin.Prelude.{codes, false, true, none, some, [], ◌∷◌, ◌≡◌, ◌⊎◌, inr, refl, arith, Text}
use own_pastebin.Base64.{uint8_to_base64, join_chunks, from_char_codes}
use own_pastebin.Crypto.{derive_key, aes_encrypt, aes_decrypt, decrypt_raw}
use own_pastebin.Crypto.Toy.{toy, salt, nonce, secret, password}
use own_pastebin.Plugins.{Outcome, returned, Window, names, init_plugins}
use own_pastebin.Server.Assets.{page_imports}
use own_pastebin.Decrypt.{View, cipher_text, decrypt_click, page_view}
use own_pastebin.Decrypt.Modal.{Dialog, try_password, answer}
use own_pastebin.Decrypt.Attempts.{
  here, tried, answered, Reach, at_start, and_then, IsSealed, text_stays,
}
use own_pastebin.Decrypt.Laws.{decrypt_click_opens, decrypt_click_empty, modal_stays, mermaid_stays}

secret_written : (w : Text) × (aes_encrypt toy salt nonce secret password ≡ some w)
unfolding aes_encrypt derive_key uint8_to_base64 join_chunks from_char_codes
secret_written = (_, refl)

empty_written : (w : Text) × (aes_encrypt toy salt nonce [] password ≡ some w)
unfolding aes_encrypt derive_key uint8_to_base64 join_chunks from_char_codes
empty_written = (_, refl)

abbrev showing : Text → View
showing text = record {
  block = some text;
  textarea = none;
  alert_hidden = some true;
  modal_shown = true;
}

abbrev done : Outcome
done = returned []

decrypt_click_opens_test :
    decrypt_click toy done (some password) (showing secret_written.0)
    ≡ record (showing secret_written.0) { block = some secret; modal_shown = false }
decrypt_click_opens_test =
    decrypt_click_opens toy done salt nonce password secret_written.0 (showing secret_written.0)
      refl refl refl 104 (105 ∷ []) tt (omega arith) secret_written.1

decrypt_click_empty_test :
    decrypt_click toy done (some password) (showing empty_written.0)
    ≡ record (showing empty_written.0) { alert_hidden = some false }
decrypt_click_empty_test =
    decrypt_click_empty toy done salt nonce password empty_written.0 (showing empty_written.0) refl
      refl refl tt empty_written.1

abbrev window : Window
window = record { is_function = λ n. false; completes = λ n. true }

modal_stays_example :
    decrypt_click toy
      (init_plugins window (names (page_imports [] (codes "go")).inits) 5 [])
      (some password)
      (page_view (codes "go") secret_written.0)
    ≡ page_view (codes "go") secret
modal_stays_example =
    modal_stays toy window [] (codes "go") 5 salt nonce password secret_written.0 104 (105 ∷ [])
      refl refl refl tt (omega arith) secret_written.1

mermaid_stays_test :
    decrypt_click toy done (some password) (page_view (codes "mermaid") secret_written.0)
    ≡ record (page_view (codes "mermaid") secret_written.0) { alert_hidden = some false }
mermaid_stays_test = mermaid_stays toy done (codes "mermaid") secret_written.0 password refl

-- Each password opens the payload in the small browser.
secret-IsSealed : IsSealed toy secret_written.0 secret
unfolding aes_decrypt decrypt_raw derive_key secret_written aes_encrypt uint8_to_base64 join_chunks
    from_char_codes
secret-IsSealed = record { opens_or_fails = λ pw. inr refl; opened = λ pw. refl }

abbrev untouched : Dialog
untouched = record { view = showing secret_written.0; waiting = [] }

-- A double click, whose first decryption has ended.
abbrev tried_twice : Dialog
tried_twice = try_password (some password) (try_password (some password) untouched)

abbrev answered_once : Dialog
answered_once =
    answer toy done (cipher_text untouched.view, password)
      ((cipher_text untouched.view, password) ∷ []) tried_twice

abbrev answered_twice : Dialog
answered_twice = answer toy done (cipher_text untouched.view, password) [] answered_once

trying : Reach toy untouched answered_once
unfolding try_password
trying =
    and_then (and_then (and_then at_start (tried (some password) _)) (tried (some password) _))
      (answered done _ _ tried_twice here)

trying_on : Reach toy answered_once answered_twice
unfolding answer
trying_on = and_then at_start (answered done _ _ answered_once here)

text_stays_example :
    ((answered_once.view.block ≡ some secret_written.0) ⊎ (answered_once.view.block ≡ some secret))
    × (answered_once.view.block ≡ some secret → answered_twice.view.block ≡ some secret)
text_stays_example =
    text_stays toy secret_written.0 secret untouched answered_once answered_twice secret-IsSealed
      refl refl trying trying_on
