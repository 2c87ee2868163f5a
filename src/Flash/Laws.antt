-- ===== src/Flash/Laws.antt =====
-- The redirect's address, spelled out and as a server reads it.
use own_pastebin.Prelude.{some, [], ◌∷◌, ◌≡◌, ◌≢◌, refl, Text, codes, All}
use own_pastebin.Url.{flash_base}
use own_pastebin.Url.Params.{Params, IsName, IsPath, read_query, IsName-of}
use own_pastebin.Url.Printed.{
  IsPlain, IsPrinted, path-IsPrinted, replace_url_param-IsPrinted, read_query-IsPrinted,
}
use own_pastebin.Flash.{flash_uri}

-- A prefix of the service's paths: no `?`, `#` and `=`.
abbrev pub IsPrefix : Text → Type 0
IsPrefix = All (λ c. (c ≢ b'?') × (c ≢ b'#') × (c ≢ b'='))

flash_base-IsPath : (prefix : Text) → IsPrefix prefix → IsPath (flash_base prefix)
unfolding flash_base
flash_base-IsPath [] h = record { stem = []; spelled = refl; plain = tt }
flash_base-IsPath (c ∷ s) h = record { stem = c ∷ s; spelled = refl; plain = h }

pub flash_base-IsPrinted :
    (prefix : Text) → IsPrefix prefix → IsPrinted (flash_base prefix) (flash_base prefix) []
flash_base-IsPrinted prefix h = path-IsPrinted _ (flash_base-IsPath prefix h)

abbrev pub flash_params : Text → Text → Text → Params
flash_params level glyph msg =
    (codes "level", level) ∷ (codes "glyph", glyph) ∷ (codes "msg", msg) ∷ []

IsName-level : IsName (codes "level")
IsName-level = IsName-of _ _ refl

IsName-glyph : IsName (codes "glyph")
IsName-glyph = IsName-of _ _ refl

IsName-msg : IsName (codes "msg")
IsName-msg = IsName-of _ _ refl

-- The address is the base followed by the three parameters in order.
pub flash_uri-IsPrinted :
    (prefix level glyph msg : Text)
    → IsPrefix prefix
    → IsPlain level
    → IsPlain glyph
    → IsPlain msg
    → IsPrinted
        (flash_base prefix)
        (flash_uri prefix level glyph msg)
        (flash_params level glyph msg)
unfolding flash_uri
flash_uri-IsPrinted prefix level glyph msg hp hl hg hm =
    replace_url_param-IsPrinted (codes "msg") msg IsName-msg hm (
      replace_url_param-IsPrinted (codes "glyph") glyph IsName-glyph hg (
        replace_url_param-IsPrinted (codes "level") level IsName-level hl
          (flash_base-IsPrinted prefix hp)))

-- The start page reads back from the redirect's address the level, the glyph and the message that
-- the script put in, if the prefix holds no `?`, `#`, `=` and the three texts hold none of
-- `&`, `#`, `?`, `=`, `$` and no line end.
pub flash_uri-read_query :
    (prefix level glyph msg : Text)
    → IsPrefix prefix
    → IsPlain level
    → IsPlain glyph
    → IsPlain msg
    → (read_query (codes "level") (flash_uri prefix level glyph msg) ≡ some level)
      × (read_query (codes "glyph") (flash_uri prefix level glyph msg) ≡ some glyph)
      × (read_query (codes "msg") (flash_uri prefix level glyph msg) ≡ some msg)
flash_uri-read_query prefix level glyph msg hp hl hg hm =
    let p = flash_uri-IsPrinted prefix level glyph msg hp hl hg hm in
    (
      read_query-IsPrinted (codes "level") IsName-level p,
      read_query-IsPrinted (codes "glyph") IsName-glyph p,
      read_query-IsPrinted (codes "msg") IsName-msg p,
    )
