-- ===== src/Crypto/RoundTrip.antt =====
-- What `aesEncrypt` writes, `aesDecrypt` reads.
use mathlib.Core.Option
use own_pastebin.Prelude.{
  ℕ, false, length-append, Option, none, some, [], ◌∷◌, ◌++◌, ◌≡◌, refl, sym, ◌∙◌, ap, arith,
  length, take, drop, Text, append_assoc, All, All-append, is_space, ◌>>=◌,
}
use own_pastebin.Base64.{subarray, uint8_to_base64}
use own_pastebin.Base64.Chunks.{uint8_to_base64-btoa}
use own_pastebin.Crypto.{derive_key, aes_encrypt, decrypt_raw, aes_decrypt}
use own_pastebin.Crypto.Platform.{Browser, format_prefix, mark, StartsUnmarked}
use own_pastebin.Crypto.Trim.{trim_same}

>>=-eq-some {ℓ κ} :
    {A : Type ℓ} {B : Type κ} (o : Option A) (k : A → Option B) {r : B}
    → (o >>= k) ≡ some r
    → (a : A) × (o ≡ some a) × (k a ≡ some r)
>>=-eq-some none k h = cc
>>=-eq-some (some a) k h = (a, refl, h)

take_exact : (n : ℕ) (xs ys : Text) → length xs ≡ n → take n (xs ++ ys) ≡ xs
take_exact n [] ys h = rw (← h)
take_exact n (x ∷ xs) ys h = rw (← h) (ap (λ t. x ∷ t) (take_exact (length xs) xs ys refl))

drop_exact : (n : ℕ) (xs ys : Text) → length xs ≡ n → drop n (xs ++ ys) ≡ ys
drop_exact n [] ys h = rw (← h)
drop_exact n (x ∷ xs) ys h = rw (← h) (drop_exact (length xs) xs ys refl)

module _ (b : Browser) where
  -- The parts of a payload that was written.
  pub record IsWritten (salt iv plaintext password written : Text) : Type 0 where
    pub key : b.Key
    pub cipher : Text
    pub encoded : Text
    pub derived : derive_key b password salt ≡ some key
    pub encrypted : b.encrypt iv key (b.utf8_encode plaintext) ≡ some cipher
    pub base64 : b.btoa (salt ++ (iv ++ cipher)) ≡ some encoded
    pub layout : written ≡ format_prefix ++ encoded

  -- A payload that `aesEncrypt` returns is `v2:` and the base64 text of the salt, the nonce and
  -- the ciphertext under the key that the password and the salt derive, whatever its length.
  pub aes_encrypt-IsWritten :
      (salt iv plaintext password written : Text)
      → aes_encrypt b salt iv plaintext password ≡ some written
      → IsWritten salt iv plaintext password written
  unfolding aes_encrypt
  aes_encrypt-IsWritten salt iv plaintext password written h =
      let write = λ (encoded : Text). some (format_prefix ++ encoded) in
      let pack =
        λ (cipher : Text). uint8_to_base64 b.limit b.btoa (salt ++ (iv ++ cipher)) >>= write in
      let (key, derived, h1) =
        >>=-eq-some (derive_key b password salt)
          (λ k. b.encrypt iv k (b.utf8_encode plaintext) >>= pack) h in
      let (cipher, encrypted, h2) =
        >>=-eq-some (b.encrypt iv key (b.utf8_encode plaintext)) pack h1 in
      let (encoded, base64, h3) =
        >>=-eq-some (uint8_to_base64 b.limit b.btoa (salt ++ (iv ++ cipher))) write h2 in
      record {
        key = key;
        cipher = cipher;
        encoded = encoded;
        derived = derived;
        encrypted = encrypted;
        base64 = sym (uint8_to_base64-btoa b.limit b.btoa _ b.enough) ∙ base64;
        layout = sym (Option.some-injective _ _ h3);
      }

  pub written-no_space :
      {salt iv plaintext password written : Text}
      → IsWritten salt iv plaintext password written
      → All (λ c. is_space c ≡ false) written
  written-no_space w = rw w.layout (
      All-append _ format_prefix w.encoded (refl, (refl, (refl, tt)))
        (b.no_space _ w.encoded w.base64))

  -- The three slices of the raw bytes are the salt, the nonce and the ciphertext.
  slices :
      (salt iv cipher : Text)
      → length salt ≡ 16
      → length iv ≡ 12
      → (subarray (salt ++ (iv ++ cipher)) 0 16 ≡ salt)
        × (subarray (salt ++ (iv ++ cipher)) 16 28 ≡ iv)
        × (drop 28 (salt ++ (iv ++ cipher)) ≡ cipher)
  slices salt iv cipher hs hi =
      let both : length (salt ++ iv) ≡ 28 = omega (arith, length-append salt iv) in
      (
        take_exact 16 salt (iv ++ cipher) hs,
        ap (take 12) (drop_exact 16 salt (iv ++ cipher) hs) ∙ take_exact 12 iv cipher hi,
        ap (drop 28) (sym (append_assoc salt iv cipher)) ∙ drop_exact 28 (salt ++ iv) cipher both,
      )

  decrypt_parts :
      {salt iv plaintext password written : Text} (w : IsWritten salt iv plaintext password written)
      → (subarray (salt ++ (iv ++ w.cipher)) 0 16 ≡ salt)
      → (subarray (salt ++ (iv ++ w.cipher)) 16 28 ≡ iv)
      → (drop 28 (salt ++ (iv ++ w.cipher)) ≡ w.cipher)
      → decrypt_raw b w.encoded password ≡ some (b.utf8_decode (b.utf8_encode plaintext))
  unfolding decrypt_raw
  decrypt_parts w s n c =
      rw (b.decodes_base64 _ w.encoded w.base64)
        (rw (s, n, c) (rw (w.derived, b.opens _ w.key _ w.cipher w.encrypted)))

  -- The bytes that were encrypted come back, up to the text decoder.
  decrypt_written :
      (salt iv plaintext password written : Text)
      → length salt ≡ 16
      → length iv ≡ 12
      → aes_encrypt b salt iv plaintext password ≡ some written
      → aes_decrypt b written password ≡ some (b.utf8_decode (b.utf8_encode plaintext))
  unfolding aes_decrypt decrypt_raw
  decrypt_written salt iv plaintext password written hs hi h =
      let w = aes_encrypt-IsWritten salt iv plaintext password written h in
      let (s, n, c) = slices salt iv w.cipher hs hi in
      rw (trim_same written (written-no_space w), w.layout) (decrypt_parts w s n c)

  -- With the same password `aesDecrypt` gives back the text that `aesEncrypt` wrote, for a salt of
  -- 16 and a nonce of 12 bytes, a text with no lone surrogate and no byte order mark at its start.
  pub aes_decrypt-aes_encrypt :
      (salt iv plaintext password written : Text)
      → length salt ≡ 16
      → length iv ≡ 12
      → b.IsWellFormed plaintext
      → StartsUnmarked plaintext
      → aes_encrypt b salt iv plaintext password ≡ some written
      → aes_decrypt b written password ≡ some plaintext
  aes_decrypt-aes_encrypt salt iv plaintext password written hs hi wf um h =
      decrypt_written salt iv plaintext password written hs hi h
      ∙ ap some (b.decodes plaintext wf um)

  -- A byte order mark at the start of the text is lost: the rest alone comes back.
  pub aes_decrypt_marked :
      (salt iv plaintext password written : Text)
      → length salt ≡ 16
      → length iv ≡ 12
      → b.IsWellFormed (mark ∷ plaintext)
      → aes_encrypt b salt iv (mark ∷ plaintext) password ≡ some written
      → aes_decrypt b written password ≡ some plaintext
  aes_decrypt_marked salt iv plaintext password written hs hi wf h =
      decrypt_written salt iv (mark ∷ plaintext) password written hs hi h
      ∙ ap some (b.decodes_marked plaintext wf)
