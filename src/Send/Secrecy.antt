-- ===== src/Send/Secrecy.antt =====
-- What leaves the page when a password is given, and what a failed encryption leaves behind.
use own_pastebin.Prelude.{
  ℕ, suc, ◌≤◌, ◌<◌, ap, true, Option, none, some, List, [], ◌∷◌, ◌≡◌, refl, sym, ◌∙◌, subst, arith,
  length, or_else, All, Text,
}
use own_pastebin.Page.{Env}
use own_pastebin.Send.{
  Form, Settings, Post, encrypting, reading, Sender, handle_send, encrypted, encryption_failed,
  respond, finish, fail, Task,
}
use own_pastebin.Send.Safety.{
  Ends, here, later, length-Ends, Step, clicked, enciphered, rejected, responded, parsed,
  no_response, no_json, Reach, none_yet, and_then, IsValid,
}

module _ (env : Env) (P : Text → Type 0) where
  -- Each click comes with a password in the form, and each result of the encryption meets `P`.
  abbrev pub IsGuarded : {s t : Sender} → Step env s t → Type 0
  IsGuarded (clicked form settings s) = 0 < length (or_else form.password [])
  IsGuarded (enciphered uri plain password cipher s rest e) = P cipher
  IsGuarded _ = Unit

  abbrev pub AreGuarded : {s t : Sender} → Reach env s t → Type 0
  AreGuarded none_yet = Unit
  AreGuarded (and_then r st) = AreGuarded r × IsGuarded st

  abbrev pub BodiesMeet : Sender → Type 0
  BodiesMeet s = All (λ (p : Post). P p.body) s.posts

  handle_send-posts :
      (form : Form) (settings : Settings) (s : Sender)
      → 0 < length (or_else form.password [])
      → (handle_send env form settings s).posts ≡ s.posts
  unfolding handle_send
  handle_send-posts form settings s g = ground arith

  respond-posts : (status : ℕ) (s : Sender) → (respond env status s).posts ≡ s.posts
  unfolding respond
  respond-posts status s = ground arith

  finish-posts :
      (result : Option (Option Text)) (s : Sender) → (finish env result s).posts ≡ s.posts
  unfolding finish
  finish-posts none s = refl
  finish-posts (some url) s = refl

  fail-posts : (s : Sender) → (fail env s).posts ≡ s.posts
  unfolding fail
  fail-posts s = refl

  Step-BodiesMeet : {s t : Sender} (st : Step env s t) → IsGuarded st → BodiesMeet s → BodiesMeet t
  unfolding encrypted encryption_failed
  Step-BodiesMeet (clicked form settings s) g h = rw (handle_send-posts form settings s g) h
  Step-BodiesMeet (enciphered uri plain password cipher s rest e) g h = (g, h)
  Step-BodiesMeet (rejected uri plain password s rest e) g h = h
  Step-BodiesMeet (responded status s rest e) g h =
      rw (respond-posts status (record s { pending = rest })) h
  Step-BodiesMeet (parsed result s rest e) g h =
      rw (finish-posts result (record s { pending = rest })) h
  Step-BodiesMeet (no_response s rest e) g h = rw (fail-posts (record s { pending = rest })) h
  Step-BodiesMeet (no_json s rest e) g h = rw (fail-posts (record s { pending = rest })) h

  -- On every history whose clicks all come with a password, each body that was posted is a result
  -- of the encryption: what holds of all those results and of the bodies posted before holds of
  -- every body posted at the end. The plain text is never posted.
  pub posts_are_ciphers :
      (s t : Sender) (r : Reach env s t) → AreGuarded r → BodiesMeet s → BodiesMeet t
  posts_are_ciphers s _ none_yet g h = h
  posts_are_ciphers s _ (and_then r st) (g, gs) h =
      Step-BodiesMeet st gs (posts_are_ciphers s _ r g h)

module _ (env : Env) where
  -- The flag is up and nothing is awaited.
  pub record IsStuck (s : Sender) : Type 0 where
    pub flag : s.in_flight ≡ true
    pub idle : s.pending ≡ []

  none-Ends : {w : Task} {ws rest : List Task} → Ends w ws rest → ws ≡ [] → ⊥
  none-Ends here e = cc
  none-Ends (later _) e = cc

  Step-IsStuck : {s t : Sender} → Step env s t → IsStuck s → t ≡ s
  unfolding handle_send
  Step-IsStuck (clicked form settings s) o = rw o.flag
  Step-IsStuck (enciphered uri plain password cipher s rest e) o = absurd (none-Ends e o.idle)
  Step-IsStuck (rejected uri plain password s rest e) o = absurd (none-Ends e o.idle)
  Step-IsStuck (responded status s rest e) o = absurd (none-Ends e o.idle)
  Step-IsStuck (parsed result s rest e) o = absurd (none-Ends e o.idle)
  Step-IsStuck (no_response s rest e) o = absurd (none-Ends e o.idle)
  Step-IsStuck (no_json s rest e) o = absurd (none-Ends e o.idle)

  Reach-IsStuck : {s t : Sender} → Reach env s t → IsStuck s → t ≡ s
  Reach-IsStuck none_yet o = refl
  Reach-IsStuck {s} (and_then r st) o =
      let same = Reach-IsStuck r o in Step-IsStuck st (subst IsStuck (sym same) o) ∙ same

  empty_of : (ws : List Task) → length ws ≤ 0 → ws ≡ []
  empty_of [] h = refl
  empty_of (w ∷ ws) h = absurd (omega arith)

  encryption_failed-IsStuck :
      (s : Sender) (rest : List Task)
      → IsValid env s
      → length s.pending ≡ suc (length rest)
      → IsStuck (encryption_failed env (record s { pending = rest }))
  unfolding encryption_failed
  encryption_failed-IsStuck s rest v e = ground (arith, empty_of rest)

  finish-IsStuck :
      (result : Option (Option Text)) (s : Sender) (rest : List Task)
      → IsValid env s
      → length s.pending ≡ suc (length rest)
      → IsStuck (finish env result (record s { pending = rest }))
  unfolding finish
  finish-IsStuck none s rest v e = ground (arith, empty_of rest)
  finish-IsStuck (some url) s rest v e = ground (arith, empty_of rest)

  -- When an encryption fails, in a state where the flag and the buttons are as `IsValid` says, the
  -- flag stays up for good: whatever is clicked later, the state does not change, so nothing is
  -- ever sent again and no message is shown.
  pub encryption_failure_blocks :
      (s : Sender) (uri plain password : Text) (rest : List Task) (t : Sender)
      → IsValid env s
      → Ends (encrypting uri plain password) s.pending rest
      → Reach env (encryption_failed env (record s { pending = rest })) t
      → (t.in_flight ≡ true) × (t.posts ≡ s.posts) × (t.location ≡ s.location)
  encryption_failure_blocks s uri plain password rest t v e r =
      let stuck = encryption_failed-IsStuck s rest v (length-Ends e) in
      let same = Reach-IsStuck r stuck in
      unfold encryption_failed in
      (ap (λ u. u.in_flight) same ∙ stuck.flag, ap (λ u. u.posts) same, ap (λ u. u.location) same)

  -- When the JSON of a successful response has come, in such a state, nothing changes any more,
  -- whatever is clicked: the paste is not posted a second time.
  pub send_posted_once :
      (s : Sender) (rest : List Task) (result : Option (Option Text)) (t : Sender)
      → IsValid env s
      → Ends reading s.pending rest
      → Reach env (finish env result (record s { pending = rest })) t
      → t ≡ finish env result (record s { pending = rest })
  send_posted_once s rest result t v e r =
      Reach-IsStuck r (finish-IsStuck result s rest v (length-Ends e))
