-- ===== src/Send/Query.antt =====
-- The address that the paste is posted to, spelled out, and what stands in it. Values has how the server
-- decodes it.
use own_pastebin.Prelude.{
  Bool, true, false, Option, none, some, [], ◌∷◌, ◌≡◌, refl, ◌∙◌, if◌then◌else◌, Text, codes,
  Lacks-of,
}
use own_pastebin.Url.{flash_base}
use own_pastebin.Url.Params.{Params, IsName, get_param, read_query, IsName-of, IsValue-of}
use own_pastebin.Url.Printed.{IsPlain, IsPrinted, replace_url_param-IsPrinted, read_query-IsPrinted}
use own_pastebin.Flash.Laws.{IsPrefix, flash_base-IsPrinted}
use own_pastebin.Send.{Settings, send_uri, post_uri}

abbrev pub IsPlainOption : Option Text → Type 0
IsPlainOption none = Unit
IsPlainOption (some v) = IsPlain v

pub record ArePlain (settings : Settings) : Type 0 where
  pub expiry : IsPlain settings.expiry
  pub burn : IsPlain settings.burn
  pub protected : IsPlain settings.protected

-- The language, if the page has its selector, in front of the three settings.
abbrev lang_params : Option Text → Params → Params
lang_params none ps = ps
lang_params (some lang) ps = (codes "lang", lang) ∷ ps

abbrev mark_params : Bool → Params
mark_params false = []
mark_params true = (codes "encrypted", codes "true") ∷ []

abbrev pub send_params : Option Text → Settings → Bool → Params
send_params lang settings mark = lang_params lang (
    (codes "ttl", settings.expiry)
    ∷ (codes "burn", settings.burn)
    ∷ (codes "protected", settings.protected)
    ∷ mark_params mark)

IsName-lang : IsName (codes "lang")
IsName-lang = IsName-of _ _ refl

IsName-ttl : IsName (codes "ttl")
IsName-ttl = IsName-of _ _ refl

IsName-burn : IsName (codes "burn")
IsName-burn = IsName-of _ _ refl

IsName-protected : IsName (codes "protected")
IsName-protected = IsName-of _ _ refl

IsName-encrypted : IsName (codes "encrypted")
IsName-encrypted = IsName-of _ _ refl

true-IsPlain : IsPlain (codes "true")
true-IsPlain = (IsValue-of (codes "true") refl, Lacks-of b'$' (codes "true") refl)

module _ (prefix : Text) (hp : IsPrefix prefix) (settings : Settings) (h : ArePlain settings) where
  send_uri-IsPrinted :
      (lang : Option Text)
      → IsPlainOption lang
      → IsPrinted
          (flash_base prefix)
          (send_uri prefix lang settings)
          (send_params lang settings false)
  unfolding send_uri
  send_uri-IsPrinted none hl =
      replace_url_param-IsPrinted (codes "protected") settings.protected IsName-protected
        h.protected
        (replace_url_param-IsPrinted (codes "burn") settings.burn IsName-burn h.burn (
          replace_url_param-IsPrinted (codes "ttl") settings.expiry IsName-ttl h.expiry
            (flash_base-IsPrinted prefix hp)))
  send_uri-IsPrinted (some lang) hl =
      replace_url_param-IsPrinted (codes "protected") settings.protected IsName-protected
        h.protected
        (replace_url_param-IsPrinted (codes "burn") settings.burn IsName-burn h.burn (
          replace_url_param-IsPrinted (codes "ttl") settings.expiry IsName-ttl h.expiry (
            replace_url_param-IsPrinted (codes "lang") lang IsName-lang hl
              (flash_base-IsPrinted prefix hp))))

  pub post_uri-IsPrinted :
      (lang : Option Text) (mark : Bool)
      → IsPlainOption lang
      → IsPrinted
          (flash_base prefix)
          (post_uri (send_uri prefix lang settings) mark)
          (send_params lang settings mark)
  unfolding post_uri
  post_uri-IsPrinted lang false hl = send_uri-IsPrinted lang hl
  post_uri-IsPrinted none true hl =
      replace_url_param-IsPrinted (codes "encrypted") (codes "true") IsName-encrypted true-IsPlain
        (send_uri-IsPrinted none hl)
  post_uri-IsPrinted (some lang) true hl =
      replace_url_param-IsPrinted (codes "encrypted") (codes "true") IsName-encrypted true-IsPlain
        (send_uri-IsPrinted (some lang) hl)

-- In the address of a POST stand, as they are, the language of the selector (none if the page has no
-- selector), the three settings of the page, and the mark `encrypted=true` exactly if the
-- body was encrypted; provided that the prefix holds no `?`, `#`, `=` and the language and the
-- settings none of `&`, `#`, `?`, `=`, `$` and no line end.
pub post_uri-read_query :
    (prefix : Text) (lang : Option Text) (settings : Settings) (mark : Bool)
    → IsPrefix prefix
    → ArePlain settings
    → IsPlainOption lang
    → (read_query (codes "lang") (post_uri (send_uri prefix lang settings) mark) ≡ lang)
      × (read_query (codes "ttl") (post_uri (send_uri prefix lang settings) mark)
          ≡ some settings.expiry)
      × (read_query (codes "burn") (post_uri (send_uri prefix lang settings) mark)
          ≡ some settings.burn)
      × (read_query (codes "protected") (post_uri (send_uri prefix lang settings) mark)
          ≡ some settings.protected)
      × (read_query (codes "encrypted") (post_uri (send_uri prefix lang settings) mark)
          ≡ (if mark then some (codes "true") else none))
post_uri-read_query prefix lang settings mark hp h hl =
    let p = post_uri-IsPrinted prefix hp settings h lang mark hl in
    (
      read_query-IsPrinted (codes "lang") IsName-lang p ∙ got_lang lang mark,
      read_query-IsPrinted (codes "ttl") IsName-ttl p ∙ got_ttl lang mark,
      read_query-IsPrinted (codes "burn") IsName-burn p ∙ got_burn lang mark,
      read_query-IsPrinted (codes "protected") IsName-protected p ∙ got_protected lang mark,
      read_query-IsPrinted (codes "encrypted") IsName-encrypted p ∙ got_mark lang mark,
    )
  where
    got_lang :
        (o : Option Text) (m : Bool) → get_param (codes "lang") (send_params o settings m) ≡ o
    got_lang none false = refl
    got_lang none true = refl
    got_lang (some l) m = refl

    got_ttl :
        (o : Option Text) (m : Bool)
        → get_param (codes "ttl") (send_params o settings m) ≡ some settings.expiry
    got_ttl none m = refl
    got_ttl (some l) m = refl

    got_burn :
        (o : Option Text) (m : Bool)
        → get_param (codes "burn") (send_params o settings m) ≡ some settings.burn
    got_burn none m = refl
    got_burn (some l) m = refl

    got_protected :
        (o : Option Text) (m : Bool)
        → get_param (codes "protected") (send_params o settings m) ≡ some settings.protected
    got_protected none m = refl
    got_protected (some l) m = refl

    got_mark :
        (o : Option Text) (m : Bool)
        → get_param (codes "encrypted") (send_params o settings m)
          ≡ (if m then some (codes "true") else none)
    got_mark none false = refl
    got_mark none true = refl
    got_mark (some l) false = refl
    got_mark (some l) true = refl
