-- ===== src/Send/Safety.antt =====
-- Every history of clicks and callbacks of the send buttons.
use own_pastebin.Prelude.{
  ℕ, suc, ◌≤◌, false, Option, none, some, List, [], ◌∷◌, ◌≡◌, refl, arith, if◌then◌else◌, length,
  Text,
}
use own_pastebin.Page.{Env}
use own_pastebin.Send.{
  Settings, Form, Task, encrypting, posting, reading, Sender, mark_button, handle_send, encrypted,
  encryption_failed, respond, finish, fail,
}

-- One wait of a list of waits is over.
pub data Ends (w : Task) : List Task → List Task → Type 0 where
  here : {ws : List Task} → Ends w (w ∷ ws) ws
  later : {v : Task} {ws rest : List Task} → Ends w ws rest → Ends w (v ∷ ws) (v ∷ rest)

pub length-Ends : {w : Task} {ws rest : List Task} → Ends w ws rest → length ws ≡ suc (length rest)
length-Ends here = refl
length-Ends (later e) = omega (arith, length-Ends e)

-- What can happen next: a click on either button with any values in the form, or the end of a wait.
module _ (env : Env) where
  pub data Step : Sender → Sender → Type 0 where
    clicked :
        (form : Form) (settings : Settings) (s : Sender) → Step s (handle_send env form settings s)
    enciphered :
        (uri plain password cipher : Text) (s : Sender) (rest : List Task)
        → Ends (encrypting uri plain password) s.pending rest
        → Step s (encrypted env uri cipher (record s { pending = rest }))
    rejected :
        (uri plain password : Text) (s : Sender) (rest : List Task)
        → Ends (encrypting uri plain password) s.pending rest
        → Step s (encryption_failed env (record s { pending = rest }))
    responded :
        (status : ℕ) (s : Sender) (rest : List Task)
        → Ends posting s.pending rest
        → Step s (respond env status (record s { pending = rest }))
    parsed :
        (result : Option (Option Text)) (s : Sender) (rest : List Task)
        → Ends reading s.pending rest
        → Step s (finish env result (record s { pending = rest }))
    no_response :
        (s : Sender) (rest : List Task)
        → Ends posting s.pending rest
        → Step s (fail env (record s { pending = rest }))
    no_json :
        (s : Sender) (rest : List Task)
        → Ends reading s.pending rest
        → Step s (fail env (record s { pending = rest }))

  pub data Reach (s : Sender) : Sender → Type 0 where
    none_yet : Reach s s
    and_then : {t u : Sender} → Reach s t → Step t u → Reach s u

  -- The flag is up while a wait is under way, and a button is disabled while the flag is up.
  pub record IsValid (s : Sender) : Type 0 where
    pub one_wait : length s.pending ≤ (if s.in_flight then 1 else 0)
    pub sidebar_shown : s.sidebar ≡ mark_button s.in_flight s.sidebar
    pub top_shown : s.top ≡ mark_button s.in_flight s.top

  handle_send-IsValid :
      (form : Form) (settings : Settings) (s : Sender)
      → IsValid s
      → IsValid (handle_send env form settings s)
  unfolding handle_send
  handle_send-IsValid form settings s v = ground arith

  encrypted-IsValid :
      (uri cipher : Text) (s : Sender) (rest : List Task)
      → length s.pending ≡ suc (length rest)
      → IsValid s
      → IsValid (encrypted env uri cipher (record s { pending = rest }))
  unfolding encrypted
  encrypted-IsValid uri cipher s rest e v = ground arith

  encryption_failed-IsValid :
      (s : Sender) (rest : List Task)
      → length s.pending ≡ suc (length rest)
      → IsValid s
      → IsValid (encryption_failed env (record s { pending = rest }))
  unfolding encryption_failed
  encryption_failed-IsValid s rest e v = ground arith

  respond-IsValid :
      (status : ℕ) (s : Sender) (rest : List Task)
      → length s.pending ≡ suc (length rest)
      → IsValid s
      → IsValid (respond env status (record s { pending = rest }))
  unfolding respond
  respond-IsValid status s rest e v = ground arith

  finish-IsValid :
      (result : Option (Option Text)) (s : Sender) (rest : List Task)
      → length s.pending ≡ suc (length rest)
      → IsValid s
      → IsValid (finish env result (record s { pending = rest }))
  unfolding finish
  finish-IsValid none s rest e v = ground arith
  finish-IsValid (some url) s rest e v = ground arith

  fail-IsValid :
      (s : Sender) (rest : List Task)
      → length s.pending ≡ suc (length rest)
      → IsValid s
      → IsValid (fail env (record s { pending = rest }))
  unfolding fail
  fail-IsValid s rest e v = ground arith

  pub Step-IsValid : {s t : Sender} → Step s t → IsValid s → IsValid t
  Step-IsValid (clicked form settings s) v = handle_send-IsValid form settings s v
  Step-IsValid (enciphered uri plain password cipher s rest e) v =
      encrypted-IsValid uri cipher s rest (length-Ends e) v
  Step-IsValid (rejected uri plain password s rest e) v =
      encryption_failed-IsValid s rest (length-Ends e) v
  Step-IsValid (responded status s rest e) v = respond-IsValid status s rest (length-Ends e) v
  Step-IsValid (parsed result s rest e) v = finish-IsValid result s rest (length-Ends e) v
  Step-IsValid (no_response s rest e) v = fail-IsValid s rest (length-Ends e) v
  Step-IsValid (no_json s rest e) v = fail-IsValid s rest (length-Ends e) v

  Reach-IsValid : {s t : Sender} → Reach s t → IsValid s → IsValid t
  Reach-IsValid none_yet v = v
  Reach-IsValid (and_then r st) v = Step-IsValid st (Reach-IsValid r v)

  -- On every history from a state with the flag down, no wait under way and both buttons enabled,
  -- at most one wait (encryption, POST or reading) is under way, none is if the flag is down, and
  -- each button that the page has is disabled exactly while the flag is up.
  pub send_one_wait :
      (s t : Sender)
      → s.in_flight ≡ false
      → s.pending ≡ []
      → s.sidebar ≡ mark_button false s.sidebar
      → s.top ≡ mark_button false s.top
      → Reach s t
      → IsValid t
  send_one_wait s t down idle side top r = Reach-IsValid r (ground arith)
