-- ===== src/Send.antt =====
-- Creating a paste: `handleSend` of web/static/js/custom.js with its guard flag, `errorMsgForStatus`,
-- `resetSendBtn`, `doSend` and the callbacks behind the request.
--
-- `pending` lists the waits under way: for the encryption, for the response, or for its JSON. What
-- a closure of the source holds stands in the wait. Every POST has the content type text/plain.
pub mod Query
pub mod Values
pub mod Safety
pub mod Secrecy
mod Tests
use own_pastebin.Prelude.{
  ℕ, zero, suc, Bool, true, false, Option, none, some, List, [], ◌∷◌, ◌==◌, if◌then◌else◌, ltb,
  length, or_else, Text, codes,
}
use own_pastebin.Url.{replace_url_param, flash_base}
use own_pastebin.Flash.{flash_uri, danger, glyph_failed}
use own_pastebin.Page.{Env, say, say_status, is_ok}

-- The variable `state` of the page.
pub record Settings : Type 0 where
  pub expiry : Text
  pub burn : Text
  pub protected : Text

-- The values of the elements that the handler reads; `none` where the page lacks the element.
pub record Form : Type 0 where
  pub language : Option Text
  pub password : Option Text
  pub content : Option Text

pub record Post : Type 0 where
  pub uri : Text
  pub body : Text

pub data Task : Type 0 where
  encrypting : (uri plain password : Text) → Task
  posting reading : Task

pub record Sender : Type 0 where
  pub in_flight : Bool  -- sendInFlight
  pub sidebar : Option Bool  -- whether a button is disabled, if the page has it
  pub top : Option Bool
  pub pending : List Task
  pub location : Option Text
  pub posts : List Post

-- `if (b) b.disabled = flag` for both buttons.
abbrev pub mark_button : Bool → Option Bool → Option Bool
mark_button flag none = none
mark_button flag (some _) = some flag

abbrev pub mark_buttons : Bool → Sender → Sender
mark_buttons flag s = record s {
  sidebar = mark_button flag s.sidebar;
  top = mark_button flag s.top;
}

abbrev pub with_language : Option Text → Text → Text
with_language none uri = uri
with_language (some lang) uri = replace_url_param uri (codes "lang") (some lang)

unfoldable pub send_uri : Text → Option Text → Settings → Text
send_uri prefix lang settings =
    let uri = with_language lang (flash_base prefix) in
    let uri1 = replace_url_param uri (codes "ttl") (some settings.expiry) in
    let uri2 = replace_url_param uri1 (codes "burn") (some settings.burn) in
    replace_url_param uri2 (codes "protected") (some settings.protected)

unfoldable pub post_uri : Text → Bool → Text
post_uri uri encrypted =
    if encrypted then replace_url_param uri (codes "encrypted") (some (codes "true")) else uri

unfoldable pub reset : Sender → Sender
reset s = mark_buttons false (record s { in_flight = false })

-- `doSend`
unfoldable pub do_send : Text → Text → Bool → Sender → Sender
unfolding post_uri
do_send uri body encrypted s = record s {
  pending = posting ∷ s.pending;
  posts = record { uri = post_uri uri encrypted; body = body } ∷ s.posts;
}

module _ (env : Env) where
  unfoldable pub handle_send : Form → Settings → Sender → Sender
  unfolding send_uri do_send
  handle_send form settings s =
      let busy = mark_buttons true (record s { in_flight = true }) in
      let uri = send_uri env.prefix form.language settings in
      let plain = or_else form.content [] in
      let password = or_else form.password [] in
      let waiting = record busy { pending = encrypting uri plain password ∷ busy.pending } in
      if s.in_flight
      then s
      else if ltb 0 (length password)
      then waiting
      else do_send uri plain false busy

  unfoldable pub error_msg_for_status : ℕ → Text
  error_msg_for_status status =
      if status == 400
      then say env (codes "msg-empty-paste")
      else if status == 413
      then say env (codes "msg-too-large")
      else if status == 429
      then say env (codes "msg-rate-limit")
      else if status == 503
      then say env (codes "msg-server-busy")
      else say_status env (codes "msg-create-failed-http") status

  abbrev pub redirect : Text → Sender → Sender
  redirect uri s = record s { location = some (env.encode uri) }

  abbrev pub fail_with : Text → Sender → Sender
  fail_with msg s = redirect (flash_uri env.prefix danger glyph_failed msg) (reset s)

  -- The encryption has ended.
  unfoldable pub encrypted : Text → Text → Sender → Sender
  unfolding do_send
  encrypted uri cipher s = do_send uri cipher true s

  -- The encryption has failed: nothing is attached to that.
  unfoldable pub encryption_failed : Sender → Sender
  encryption_failed s = s

  -- The first `then`.
  unfoldable pub respond : ℕ → Sender → Sender
  unfolding reset
  respond status s =
      if is_ok status
      then record s { pending = reading ∷ s.pending }
      else fail_with (error_msg_for_status status) s

  -- The second `then`: `none` is a decoded JSON that counts as false, `some` one with its `url`.
  unfoldable pub finish : Option (Option Text) → Sender → Sender
  finish none s = s
  finish (some url) s =
      redirect
        (replace_url_param
          (flash_uri env.prefix (codes "success") (codes "fas fa-check")
            (say env (codes "msg-create-success")))
          (codes "url") url)
        s

  -- The `catch`: no response, or a body that is no JSON.
  unfoldable pub fail : Sender → Sender
  unfolding reset
  fail s = fail_with (say env (codes "msg-network-error")) s
