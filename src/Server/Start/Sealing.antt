-- ===== src/Server/Start/Sealing.antt =====
-- What an app with and without a cipher saves of an upload.
use own_pastebin.Prelude.{ℕ, Bool, true, false, ◌≡◌, Option, none, some, ◌++◌, refl, take, Text}
use own_pastebin.Server.Cipher.{Gcm, encrypt}
use own_pastebin.Server.Store.{Paste, Table}
use own_pastebin.Server.Routes.{App, Upload, sealed_by, content_of, handle_create}
use own_pastebin.Server.Routes.Create.{IsSavedWith, handle_create-IsSavedWith}

-- The content is a nonce with the sealed bytes of the body.
abbrev pub IsSealed : Gcm → ℕ → Upload → Paste → Type 0
IsSealed g max u p =
    (p.encrypted ≡ true)
    × ((nonce : Text) × (body : Text) × (u.nonce ≡ some nonce)
        × (u.body ≡ some body)
        × (p.content ≡ nonce ++ g.seal nonce (take max body)))

abbrev IsCipher : Gcm → Option Text → Text → Text × Bool → Type 0
IsCipher g random raw x =
    (x.1 ≡ true) × ((nonce : Text) × (random ≡ some nonce) × (x.0 ≡ nonce ++ g.seal nonce raw))

sealed_by-IsCipher :
    (g : Gcm) (random : Option Text) (raw : Text) (x : Text × Bool)
    → sealed_by random raw (some g) ≡ some x
    → IsCipher g random raw x
unfolding encrypt
sealed_by-IsCipher g none raw x e = absurd (cc e)
sealed_by-IsCipher g (some nonce) raw (bytes, encrypted) e = (cc e, (nonce, refl, cc e))

-- The content is the body as it was sent.
abbrev pub IsPlain : ℕ → Upload → Paste → Type 0
IsPlain max u p =
    (p.encrypted ≡ false) × ((body : Text) × (u.body ≡ some body) × (p.content ≡ take max body))

pub handle_create-IsPlain :
    (app : App) (rows : Table) (now : ℕ) (u : Upload)
    → app.encryption_enabled ≡ false
    → IsSavedWith (IsPlain app.max_paste_size u) app rows (handle_create app now u rows)
unfolding content_of
handle_create-IsPlain app rows now u off =
    handle_create-IsSavedWith (IsPlain app.max_paste_size u) app rows now u
      (λ body bytes encrypted ttl b e.
        let same : some (take app.max_paste_size body, false) ≡ some (bytes, encrypted) =
          rw off at e in
        (cc same, (body, b, cc same)))

module _ (app : App) (g : Gcm) (on : app.encryption_enabled ≡ true)
    (has : app.cipher ≡ some g) where
  content_of-IsCipher :
      (random : Option Text) (raw : Text) (x : Text × Bool)
      → content_of app random raw ≡ some x
      → IsCipher g random raw x
  unfolding content_of
  content_of-IsCipher random raw x e = sealed_by-IsCipher g random raw x (rw (on, has) at e)

  pub handle_create-IsSealed :
      (rows : Table) (now : ℕ) (u : Upload)
      → IsSavedWith (IsSealed g app.max_paste_size u) app rows (handle_create app now u rows)
  handle_create-IsSealed rows now u =
      handle_create-IsSavedWith (IsSealed g app.max_paste_size u) app rows now u
        (λ body bytes encrypted ttl b e.
          let (flag, (nonce, random, same)) =
            content_of-IsCipher u.nonce (take app.max_paste_size body) (bytes, encrypted) e in
          (flag, (nonce, body, random, b, same)))
