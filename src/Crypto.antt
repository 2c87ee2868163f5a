-- ===== src/Crypto.antt =====
-- Encryption in the page: `deriveKey`, `aesEncrypt` and `aesDecrypt` of web/static/js/custom.js.
--
-- The Web Crypto API, the text codecs and `btoa`/`atob` are the browser's: `Browser` has them as
-- operations, with what the script relies on as laws. A rejected promise or a thrown
-- exception is `none`. The random salt and nonce are arguments.
pub mod Platform
pub mod Trim
pub mod RoundTrip
pub mod Toy
mod Tests
use own_pastebin.Prelude.{
  ℕ, Option, none, some, List, [], ◌++◌, drop, Text, codes, strip_prefix, trim, ◌>>=◌,
}
use own_pastebin.Base64.{subarray, uint8_to_base64}
use own_pastebin.Crypto.Platform.{Browser, format_prefix}

abbrev pub pbkdf2_iterations : ℕ
pbkdf2_iterations = 200000

module _ (b : Browser) where
  unfoldable pub derive_key : Text → Text → Option b.Key
  derive_key password salt = do
    material ← b.import_key (b.utf8_encode password)
    b.derive pbkdf2_iterations salt material

  -- The salt, the nonce and the ciphertext with its tag, one behind the other.
  unfoldable pub aes_encrypt : Text → Text → Text → Text → Option Text
  aes_encrypt salt iv plaintext password = do
    key ← derive_key password salt
    cipher ← b.encrypt iv key (b.utf8_encode plaintext)
    encoded ← uint8_to_base64 b.limit b.btoa (salt ++ (iv ++ cipher))
    some (format_prefix ++ encoded)

  -- What stands under `try`.
  unfoldable pub decrypt_raw : Text → Text → Option Text
  decrypt_raw encoded password = do
    raw ← b.atob encoded
    key ← derive_key password (subarray raw 0 16)
    plain ← b.decrypt (subarray raw 16 28) key (drop 28 raw)
    some (b.utf8_decode plain)

  -- `null` is `none`: another format, or an exception that was caught.
  unfoldable pub aes_decrypt : Text → Text → Option Text
  aes_decrypt cipher_text password = do
    encoded ← strip_prefix format_prefix (trim cipher_text)
    decrypt_raw encoded password
