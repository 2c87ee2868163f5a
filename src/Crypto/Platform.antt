-- ===== src/Crypto/Platform.antt =====
-- What the browser gives to the encryption of the page.
use own_pastebin.Prelude.{
  ℕ, ◌≤◌, false, Option, some, [], ◌∷◌, ◌≡◌, ◌≢◌, Text, codes, is_space, All,
}

abbrev pub format_prefix : Text
format_prefix = codes "v2:"

-- The byte order mark.
abbrev pub mark : ℕ
mark = 65279

abbrev pub StartsUnmarked : Text → Type 0
StartsUnmarked [] = Unit
StartsUnmarked (c ∷ s) = c ≢ mark

pub record Browser : Type 1 where
  pub Material : Type 0
  pub Key : Type 0
  pub import_key : Text → Option Material
  pub derive : ℕ → Text → Material → Option Key
  pub encrypt : Text → Key → Text → Option Text
  pub decrypt : Text → Key → Text → Option Text
  pub utf8_encode : Text → Text
  pub utf8_decode : Text → Text
  pub btoa : Text → Option Text
  pub atob : Text → Option Text
  pub limit : ℕ
  -- Texts with no lone surrogate, which UTF-8 can encode.
  pub IsWellFormed : Text → Type 0
  -- AES-GCM with the key and nonce that encrypted gives the plain bytes back.
  pub opens :
      (iv : Text) (key : Key) (plain cipher : Text)
      → encrypt iv key plain ≡ some cipher
      → decrypt iv key cipher ≡ some plain
  -- The decoder drops one byte order mark at the start, and else inverts the encoder.
  pub decodes : (s : Text) → IsWellFormed s → StartsUnmarked s → utf8_decode (utf8_encode s) ≡ s
  pub decodes_marked :
      (s : Text) → IsWellFormed (mark ∷ s) → utf8_decode (utf8_encode (mark ∷ s)) ≡ s
  -- Base64 inverts, and its alphabet holds no white space.
  pub decodes_base64 : (s t : Text) → btoa s ≡ some t → atob t ≡ some s
  pub no_space : (s t : Text) → btoa s ≡ some t → All (λ c. is_space c ≡ false) t
  -- The engine takes at least 8192 arguments.
  pub enough : 8192 ≤ limit
