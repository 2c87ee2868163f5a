-- ===== src/Way.antt =====
-- The whole way of an encrypted paste: the form and the POST of web/static/js/custom.js, the
-- handlers of internal/routes.go that save and show it, the template web/templates/index.html, and
-- the decrypt button.
--
-- The payload is ASCII, so that the bytes of the body are the code units that are posted. `decode`
-- is what the server's decoding of a query makes of a value as the browser sends it.
mod Tests
use own_pastebin.Prelude.{
  ℕ, ◌/◌, Bool, true, false, Option, none, some, List, [], ◌∷◌, ◌≡◌, refl, ap, ◌∙◌, arith,
  if◌then◌else◌, length, Text, codes, text_eq,
}
use own_pastebin.Url.Params.{read_query}
use own_pastebin.Crypto.{aes_encrypt}
use own_pastebin.Crypto.Platform.{Browser, StartsUnmarked}
use own_pastebin.Page.{Env}
use own_pastebin.Flash.Laws.{IsPrefix}
use own_pastebin.Send.{
  Settings, Form, Post, encrypting, Sender, handle_send, encrypted, send_uri, post_uri, do_send,
}
use own_pastebin.Send.Query.{ArePlain, IsPlainOption, post_uri-read_query}
use own_pastebin.Plugins.{Outcome}
use own_pastebin.Decrypt.{View, close_after, decrypt_click, page_view}
use own_pastebin.Decrypt.Laws.{decrypt_click_opens}
use own_pastebin.Decrypt.Paste.{filled}
use own_pastebin.Server.Ttl.{ℤ, nanoseconds, resolve_ttl, expire_at}
use own_pastebin.Server.Store.{Table, is_over}
use own_pastebin.Server.Routes.{
  App, Upload, PageData, Reply, refused, created, content, page, not_found, deleted, lang_of,
  page_opened, handle_create, handle_view,
}
use own_pastebin.Server.Routes.Read.{all_answered, IsAccepted, upload_read}

-- The posts after the callback that follows a click, when the payload is there.
abbrev pub posts_after : Env → Form → Settings → (written : Text) → Sender → List Post
posts_after env form settings written s =
    (encrypted env (send_uri env.prefix form.language settings) written
      (handle_send env form settings s)).posts

-- The POST of a payload.
abbrev pub marked_post : Env → Option Text → Settings → Text → Post
marked_post env language settings written = record {
  uri = post_uri (send_uri env.prefix language settings) true;
  body = written;
}

-- `q.Get(name)`: the empty text where the parameter is missing.
abbrev pub value_or_empty : (Text → Text) → Option Text → Text
value_or_empty decode none = []
value_or_empty decode (some v) = decode v

-- The request that a POST makes; the rest of the upload is the server's side.
abbrev pub request : (Text → Text) → Post → Upload → Upload
request decode post u = record u {
  body = some post.body;
  query = λ name. value_or_empty decode (read_query name post.uri);
}

abbrev pub sent_by : Env → Option Text → Settings → (Text → Text) → Upload → Text → Upload
sent_by env language settings decode u written =
    request decode (marked_post env language settings written) u

-- The language that a paste gets from the selector's value.
abbrev pub stored_lang : (Text → Text) → Option Text → Text
stored_lang decode language = lang_of (value_or_empty decode language)

-- The elements of the page that a reply brings, if it is the page of an encrypted paste.
abbrev pub shown_page : PageData → Option View
shown_page d = if d.is_encrypted then some (page_view d.lang d.code) else none

abbrev pub shown_view : Reply → Option View
shown_view (refused status) = none
shown_view (created c) = none
shown_view (content s) = none
shown_view (page d) = shown_page d
shown_view not_found = none
shown_view deleted = none

-- What a reader sees at /id after the upload.
abbrev pub opened_page : App → (now later : ℕ) → (Text → Bool) → Text → Upload → Table → Option View
opened_page app now later valid id u rows =
    shown_view (handle_view app later valid all_answered id (handle_create app now u rows).1).0

-- The click on the send button: the encryption is under way, and its callback posts the payload.
clicked :
    (env : Env) (settings : Settings) (language : Option Text) (p : ℕ) (ps plain written : Text)
    (s : Sender)
    → s.in_flight ≡ false
    → ((handle_send env (filled language (p ∷ ps) plain) settings s).pending
        ≡ encrypting (send_uri env.prefix language settings) plain (p ∷ ps) ∷ s.pending)
      × (posts_after env (filled language (p ∷ ps) plain) settings written s
          ≡ marked_post env language settings written ∷ s.posts)
unfolding handle_send encrypted do_send
clicked env settings language p ps plain written s idle = ground arith

module _ (env : Env) (settings : Settings) (language : Option Text) (decode : Text → Text)
    (app : App) (now later : ℕ) (u : Upload) (w : ℕ) (ws nonce id : Text) (ttl : ℤ) (rows : Table)
    (valid : Text → Bool) where
  abbrev sent : Upload
  sent = sent_by env language settings decode u (w ∷ ws)

  opened :
      IsPrefix env.prefix
      → ArePlain settings
      → IsPlainOption language
      → decode (codes "true") ≡ codes "true"
      → IsAccepted app now sent (w ∷ ws) nonce id ttl rows
      → is_over (later / nanoseconds) (expire_at now (resolve_ttl app.max_ttl ttl)) ≡ false
      → valid (w ∷ ws) ≡ true
      → opened_page app now later valid id sent rows
        ≡ some (page_view (stored_lang decode language) (w ∷ ws))
  opened hp hs hl hd v h hv =
      let (lang, _, _, _, mark) = post_uri-read_query env.prefix language settings true hp hs hl in
      let (p, saved, _, of_lang, of_mark, _, viewed, _) =
        upload_read app now sent w ws nonce id ttl rows v later 0 valid h in
      let named : p.lang ≡ stored_lang decode language =
        of_lang ∙ ap (λ x. lang_of (value_or_empty decode x)) lang in
      let is_marked : p.e2e_encrypted ≡ true =
        of_mark
        ∙ ap (λ x. text_eq (value_or_empty decode x) (codes "true")) mark
        ∙ ap (λ x. text_eq x (codes "true")) hd in
      rw saved (rw viewed (rw (hv, is_marked, named)))

  -- What a user sends under a password, a reader opens with it. A click on the send button starts the
  -- encryption of the text; its callback posts the payload; the server saves the request and the
  -- page that it later shows is one with a password modal over the payload; and the decrypt button
  -- puts the text there, and closes the modal if the call of `init_plugins` returns.
  -- (No request is under way; the prefix, the settings and the language hold no character that
  -- has a meaning in an address, and the server decodes "true" as it is; the request is accepted, the
  -- reader comes before the expiry, the payload is UTF-8, the language is not mermaid; salt and nonce
  -- have 16 and 12 bytes; the text is not empty, has no lone surrogate and no byte order mark at
  -- its start.)
  pub paste_way :
      (b : Browser) (run : Outcome) (salt iv : Text) (p : ℕ) (ps : Text) (c : ℕ) (cs : Text)
      (s : Sender)
      → s.in_flight ≡ false
      → length salt ≡ 16
      → length iv ≡ 12
      → b.IsWellFormed (c ∷ cs)
      → StartsUnmarked (c ∷ cs)
      → aes_encrypt b salt iv (c ∷ cs) (p ∷ ps) ≡ some (w ∷ ws)
      → IsPrefix env.prefix
      → ArePlain settings
      → IsPlainOption language
      → decode (codes "true") ≡ codes "true"
      → IsAccepted app now sent (w ∷ ws) nonce id ttl rows
      → is_over (later / nanoseconds) (expire_at now (resolve_ttl app.max_ttl ttl)) ≡ false
      → valid (w ∷ ws) ≡ true
      → text_eq (stored_lang decode language) (codes "mermaid") ≡ false
      → (((handle_send env (filled language (p ∷ ps) (c ∷ cs)) settings s).pending
            ≡ encrypting (send_uri env.prefix language settings) (c ∷ cs) (p ∷ ps) ∷ s.pending)
          × (posts_after env (filled language (p ∷ ps) (c ∷ cs)) settings (w ∷ ws) s
              ≡ marked_post env language settings (w ∷ ws) ∷ s.posts))
        × (opened_page app now later valid id sent rows
            ≡ some (page_view (stored_lang decode language) (w ∷ ws)))
        × (decrypt_click b run (some (p ∷ ps)) (page_view (stored_lang decode language) (w ∷ ws))
            ≡ close_after run (page_view (stored_lang decode language) (c ∷ cs)))
  unfolding page_view
  paste_way b run salt iv p ps c cs s idle hs hi wf um he hp ha hl hd v h hv hm =
      let shown : View = page_view (stored_lang decode language) (w ∷ ws) in
      let block : shown.block ≡ some (w ∷ ws) = rw hm refl in
      (
        clicked env settings language p ps (c ∷ cs) (w ∷ ws) s idle,
        opened hp ha hl hd v h hv,
        rw (decrypt_click_opens b run salt iv (p ∷ ps) (w ∷ ws) shown hs hi block c cs wf um he)
            (rw hm),
      )
