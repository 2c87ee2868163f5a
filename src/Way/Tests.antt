-- ===== src/Way/Tests.antt =====
-- The whole way at an input, with the small browser and the small server.
use own_pastebin.Prelude.{
  ℕ, ◌*◌, ◌/◌, true, false, none, some, [], ◌∷◌, ◌≡◌, refl, arith, Text, codes, Lacks-of,
}
use own_pastebin.Base64.{uint8_to_base64, join_chunks, from_char_codes}
use own_pastebin.Crypto.{derive_key, aes_encrypt}
use own_pastebin.Crypto.Toy.{toy, salt, nonce}
use own_pastebin.Page.{Env}
use own_pastebin.Url.{
  flash_base, replace_url_param, search, match_here, append_param, strip_last, has_query,
}
use own_pastebin.Url.Params.{IsValue-of, read_query}
use own_pastebin.Send.{Settings, Sender, encrypting, handle_send, send_uri, post_uri}
use own_pastebin.Send.Query.{ArePlain}
use own_pastebin.Plugins.{returned}
use own_pastebin.Decrypt.{decrypt_click, page_view, close_after}
use own_pastebin.Decrypt.Paste.{filled}
use own_pastebin.Server.Ttl.{pos, nanoseconds, requested_ttl, resolve_ttl, expire_at}
use own_pastebin.Server.Store.{find, is_over}
use own_pastebin.Server.Routes.Read.{IsAccepted}
use own_pastebin.Server.Routes.{Upload}
use own_pastebin.Server.Routes.Toy.{server, upload, server_nonce}
use own_pastebin.Way.{sent_by, posts_after, marked_post, opened_page, paste_way}

hi_written :
    (ws : Text) × (aes_encrypt toy salt nonce (104 ∷ 105 ∷ []) (112 ∷ 119 ∷ []) ≡ some (b'v' ∷ ws))
unfolding aes_encrypt derive_key uint8_to_base64 join_chunks from_char_codes
hi_written = (_, refl)

abbrev env : Env
env = record { prefix = []; catalogue = []; encode = λ t. t }

abbrev settings : Settings
settings = record { expiry = codes "60"; burn = codes "true"; protected = codes "false" }

abbrev idle : Sender
idle = record {
  in_flight = false;
  sidebar = some false;
  top = none;
  pending = [];
  location = none;
  posts = [];
}

abbrev minute : ℕ
minute = 60 * nanoseconds

abbrev arrived : Upload
arrived = sent_by env none settings (λ t. t) (upload []) (b'v' ∷ hi_written.0)

arrived-IsAccepted :
    IsAccepted server minute arrived (b'v' ∷ hi_written.0) server_nonce (codes "x1") (pos minute) []
unfolding requested_ttl find hi_written aes_encrypt derive_key uint8_to_base64 join_chunks
    from_char_codes read_query post_uri send_uri flash_base replace_url_param search match_here
    append_param strip_last has_query
arrived-IsAccepted = record {
  not_above = refl;
  body_read = refl;
  is_within = omega arith;
  has_slot = refl;
  has_nonce = refl;
  nonce_long = refl;
  ttl_read = refl;
  first_id = refl;
  id_free = refl;
}

not_over :
    is_over (minute / nanoseconds) (expire_at minute (resolve_ttl server.max_ttl (pos minute)))
    ≡ false
unfolding expire_at resolve_ttl
not_over = refl

settings-ArePlain : ArePlain settings
settings-ArePlain = record {
  expiry = (IsValue-of settings.expiry refl, Lacks-of b'$' settings.expiry refl);
  burn = (IsValue-of settings.burn refl, Lacks-of b'$' settings.burn refl);
  protected = (IsValue-of settings.protected refl, Lacks-of b'$' settings.protected refl);
}

paste_way_example :
    (((handle_send env (filled none (codes "pw") (codes "hi")) settings idle).pending
        ≡ encrypting (send_uri [] none settings) (codes "hi") (codes "pw") ∷ [])
      × (posts_after env (filled none (codes "pw") (codes "hi")) settings (b'v' ∷ hi_written.0) idle
          ≡ marked_post env none settings (b'v' ∷ hi_written.0) ∷ []))
    × (opened_page server minute minute (λ t. true) (codes "x1") arrived []
        ≡ some (page_view (codes "text") (b'v' ∷ hi_written.0)))
    × (decrypt_click toy
          (returned [])
          (some (codes "pw"))
          (page_view (codes "text") (b'v' ∷ hi_written.0))
        ≡ close_after (returned []) (page_view (codes "text") (codes "hi")))
paste_way_example =
    paste_way env settings none (λ t. t) server minute minute (upload []) b'v' hi_written.0
      server_nonce (codes "x1") (pos minute) [] (λ t. true) toy (returned []) salt nonce 112
      (119 ∷ []) 104 (105 ∷ []) idle refl refl refl tt (omega arith) hi_written.1 tt
      settings-ArePlain tt refl arrived-IsAccepted not_over refl refl
