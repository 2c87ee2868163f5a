-- ===== src/Send/Values.antt =====
-- The address that the paste is posted to, as the server decodes it.
use own_pastebin.Prelude.{
  Bool, true, false, Option, none, some, [], ◌≡◌, refl, ◌∙◌, if◌then◌else◌, or_else, Text, codes,
}
use own_pastebin.Url.Params.{get_param}
use own_pastebin.Flash.Laws.{IsPrefix}
use own_pastebin.Send.{Settings, send_uri, post_uri}
use own_pastebin.Send.Query.{IsPlainOption, send_params, post_uri-IsPrinted}
use own_pastebin.Server.Query.{get_value}
use own_pastebin.Server.Query.Laws.{IsUnreserved, AreUnreserved, IsPlain-of, get_value-IsPrinted}

abbrev pub IsUnreservedOption : Option Text → Type 0
IsUnreservedOption none = Unit
IsUnreservedOption (some v) = IsUnreserved v

pub record SettingsAreUnreserved (settings : Settings) : Type 0 where
  pub expiry : IsUnreserved settings.expiry
  pub burn : IsUnreserved settings.burn
  pub protected : IsUnreserved settings.protected

settings-AreUnreserved :
    (settings : Settings) (mark : Bool)
    → SettingsAreUnreserved settings
    → AreUnreserved (send_params none settings mark)
settings-AreUnreserved settings false h =
    ((λ e. cc e, refl, h.expiry), ((λ e. cc e, refl, h.burn), ((λ e. cc e, refl, h.protected), tt)))
settings-AreUnreserved settings true h = (
  (λ e. cc e, refl, h.expiry),
  ((λ e. cc e, refl, h.burn), ((λ e. cc e, refl, h.protected), ((λ e. cc e, refl, refl), tt))),
)

params-AreUnreserved :
    (lang : Option Text) (settings : Settings) (mark : Bool)
    → SettingsAreUnreserved settings
    → IsUnreservedOption lang
    → AreUnreserved (send_params lang settings mark)
params-AreUnreserved none settings mark h hl = settings-AreUnreserved settings mark h
params-AreUnreserved (some lang) settings mark h hl =
    ((λ e. cc e, refl, hl), settings-AreUnreserved settings mark h)

abbrev found_in : Settings → Option Text → Bool → Text → Text
found_in settings o m name = or_else (get_param name (send_params o settings m)) []

IsPlainOption-of : (lang : Option Text) → IsUnreservedOption lang → IsPlainOption lang
IsPlainOption-of none h = tt
IsPlainOption-of (some v) h = IsPlain-of v h

module _ (prefix : Text) (lang : Option Text) (settings : Settings) (mark : Bool) where
  abbrev pub posted : Text → Text
  posted name = get_value name (post_uri (send_uri prefix lang settings) mark)

  -- In the address of a POST the server finds the language of the selector (nothing if the page has no
  -- selector), the three settings of the page, and `encrypted` is "true" exactly if the body was
  -- encrypted, else empty: each as Go decodes the query. The prefix holds no `?`, `#`, `=`, and the
  -- language and the settings are of ASCII letters, digits and `_`, `-`, `.`, `~`, which a browser
  -- sends as they are.
  pub post_uri-get_value :
      IsPrefix prefix
      → SettingsAreUnreserved settings
      → IsUnreservedOption lang
      → (posted (codes "lang") ≡ or_else lang [])
        × (posted (codes "ttl") ≡ settings.expiry)
        × (posted (codes "burn") ≡ settings.burn)
        × (posted (codes "protected") ≡ settings.protected)
        × (posted (codes "encrypted") ≡ (if mark then codes "true" else []))
  post_uri-get_value hp h hl =
      let p =
        post_uri-IsPrinted prefix hp settings
          (record {
            expiry = IsPlain-of settings.expiry h.expiry;
            burn = IsPlain-of settings.burn h.burn;
            protected = IsPlain-of settings.protected h.protected;
          })
          lang mark (IsPlainOption-of lang hl) in
      let v = params-AreUnreserved lang settings mark h hl in
      let got = λ (name : Text). get_value-IsPrinted name v p in
      (
        got (codes "lang") ∙ got_lang lang mark,
        got (codes "ttl") ∙ got_ttl lang mark,
        got (codes "burn") ∙ got_burn lang mark,
        got (codes "protected") ∙ got_protected lang mark,
        got (codes "encrypted") ∙ got_mark lang mark,
      )
    where
      got_lang : (o : Option Text) (m : Bool) → found_in settings o m (codes "lang") ≡ or_else o []
      got_lang none false = refl
      got_lang none true = refl
      got_lang (some l) m = refl

      got_ttl : (o : Option Text) (m : Bool) → found_in settings o m (codes "ttl") ≡ settings.expiry
      got_ttl none m = refl
      got_ttl (some l) m = refl

      got_burn : (o : Option Text) (m : Bool) → found_in settings o m (codes "burn") ≡ settings.burn
      got_burn none m = refl
      got_burn (some l) m = refl

      got_protected :
          (o : Option Text) (m : Bool)
          → found_in settings o m (codes "protected") ≡ settings.protected
      got_protected none m = refl
      got_protected (some l) m = refl

      got_mark :
          (o : Option Text) (m : Bool)
          → found_in settings o m (codes "encrypted") ≡ (if m then codes "true" else [])
      got_mark none false = refl
      got_mark none true = refl
      got_mark (some l) false = refl
      got_mark (some l) true = refl
