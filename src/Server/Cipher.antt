-- ===== src/Server/Cipher.antt =====
-- Encryption on the server: `Encrypt` and `Decrypt` of internal/crypto.go.
--
-- AES-GCM is Go's library: `Gcm` has the two operations with the law that the program relies on. The
-- random nonce is an argument, `none` where the random source fails.
use own_pastebin.Prelude.{
  ℕ, Option, none, some, [], ◌∷◌, false, ap, ◌++◌, ◌≡◌, refl, arith, if◌then◌else◌, ltb, length,
  take, drop, Text, length-append,
}

pub record Gcm : Type 0 where
  pub seal : Text → Text → Text
  pub unseal : Text → Text → Option Text
  pub unseals : (nonce plain : Text) → unseal nonce (seal nonce plain) ≡ some plain

abbrev pub nonce_size : ℕ
nonce_size = 12

unfoldable pub encrypt : Gcm → Option Text → Text → Option Text
encrypt g none plain = none
encrypt g (some nonce) plain = some (nonce ++ g.seal nonce plain)

unfoldable pub decrypt : Gcm → Text → Option Text
decrypt g stored =
    if ltb (length stored) nonce_size
    then none
    else g.unseal (take nonce_size stored) (drop nonce_size stored)

take_front : (s t : Text) → take (length s) (s ++ t) ≡ s
take_front [] t = refl
take_front (c ∷ s) t = ap (λ r. c ∷ r) (take_front s t)

drop_front : (s t : Text) → drop (length s) (s ++ t) ≡ t
drop_front [] t = refl
drop_front (c ∷ s) t = drop_front s t

-- What `Encrypt` writes with a nonce of 12 bytes, `Decrypt` reads back.
pub decrypt-encrypt :
    (g : Gcm) (nonce plain : Text)
    → length nonce ≡ nonce_size
    → decrypt g (nonce ++ g.seal nonce plain) ≡ some plain
unfolding decrypt
decrypt-encrypt g nonce plain h =
    let long : ltb (length (nonce ++ g.seal nonce plain)) nonce_size ≡ false =
      ground (arith, length-append nonce (g.seal nonce plain)) in
    rw (long, ← h, take_front, drop_front) (g.unseals nonce plain)
