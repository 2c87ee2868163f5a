-- ===== src/Crypto/Tests.antt =====
-- The encryption of web/static/js/custom.js at an input.
use own_pastebin.Prelude.{◌≡◌, ◌∷◌, some, refl, arith, Text}
use own_pastebin.Base64.{uint8_to_base64, join_chunks, from_char_codes}
use own_pastebin.Crypto.{derive_key, aes_encrypt, aes_decrypt}
use own_pastebin.Crypto.Platform.{mark}
use own_pastebin.Crypto.Toy.{toy, salt, nonce, secret, password}
use own_pastebin.Crypto.RoundTrip.{aes_decrypt-aes_encrypt, aes_decrypt_marked}

written : (w : Text) × (aes_encrypt toy salt nonce secret password ≡ some w)
unfolding aes_encrypt derive_key uint8_to_base64 join_chunks from_char_codes
written = (_, refl)

written_marked : (w : Text) × (aes_encrypt toy salt nonce (mark ∷ secret) password ≡ some w)
unfolding aes_encrypt derive_key uint8_to_base64 join_chunks from_char_codes
written_marked = (_, refl)

aes_decrypt-aes_encrypt_example : aes_decrypt toy written.0 password ≡ some secret
aes_decrypt-aes_encrypt_example =
    aes_decrypt-aes_encrypt toy salt nonce secret password written.0 refl refl tt (omega arith)
      written.1

aes_decrypt_marked_test : aes_decrypt toy written_marked.0 password ≡ some secret
aes_decrypt_marked_test =
    aes_decrypt_marked toy salt nonce secret password written_marked.0 refl refl tt written_marked.1
