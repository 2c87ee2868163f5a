-- ===== src/Decrypt/Attempts.antt =====
-- However often and with whichever passwords it is tried, the page shows the payload or the text.
use own_pastebin.Prelude.{
  Bool, true, false, Option, none, some, List, [], ◌∷◌, ◌≡◌, ◌⊎◌, inl, inr, refl, ◌∙◌, Text, All,
  codes, text_eq, trim, Bool-cases,
}
use own_pastebin.Crypto.{aes_decrypt}
use own_pastebin.Crypto.Platform.{Browser}
use own_pastebin.Plugins.{Outcome, returned, thrown}
use own_pastebin.Decrypt.{View, cipher_text, decrypted}
use own_pastebin.Decrypt.Modal.{Dialog, try_password, answer, key_down, set_shown, background_click}

pub data Ends (x : Text × Text) : List (Text × Text) → List (Text × Text) → Type 0 where
  here : {rest : List (Text × Text)} → Ends x (x ∷ rest) rest
  later :
      {y : Text × Text} {xs rest : List (Text × Text)} → Ends x xs rest → Ends x (y ∷ xs) (y ∷ rest)

-- Clicks, keys and ends of decryptions in any order.
pub data Step (b : Browser) : Dialog → Dialog → Type 0 where
  tried : (password : Option Text) (d : Dialog) → Step b d (try_password password d)
  typed :
      (key : Text) (has_button : Bool) (password : Option Text) (d : Dialog)
      → Step b d (key_down key has_button password d)
  answered :
      (run : Outcome) (x : Text × Text) (rest : List (Text × Text)) (d : Dialog)
      → Ends x d.waiting rest
      → Step b d (answer b run x rest d)
  beside : (on_background : Bool) (d : Dialog) → Step b d (background_click on_background d)
  switched : (shown : Bool) (d : Dialog) → Step b d (set_shown shown d)

pub data Reach (b : Browser) : Dialog → Dialog → Type 0 where
  at_start : {d : Dialog} → Reach b d d
  and_then : {d e f : Dialog} → Reach b d e → Step b e f → Reach b d f

module _ (b : Browser) (payload text : Text) where
  -- Each password fails on the payload or gives the text; none opens the text itself.
  pub record IsSealed : Type 0 where
    pub opens_or_fails :
        (password : Text)
        → (aes_decrypt b (trim payload) password ≡ none)
          ⊎ (aes_decrypt b (trim payload) password ≡ some text)
    pub opened : (password : Text) → aes_decrypt b (trim text) password ≡ none

  abbrev IsOne : Text → Type 0
  IsOne t = (t ≡ trim payload) ⊎ (t ≡ trim text)

  abbrev pub ShowsOne : View → Type 0
  ShowsOne v = (v.block ≡ some payload) ⊎ (v.block ≡ some text)

  record IsKept (d : Dialog) : Type 0 where
    shows : ShowsOne d.view
    waits : All (λ x. IsOne x.0) d.waiting

  cipher_text-IsOne : (v : View) → ShowsOne v → IsOne (cipher_text v)
  unfolding cipher_text
  cipher_text-IsOne v (inl e) = inl (rw e refl)
  cipher_text-IsOne v (inr e) = inr (rw e refl)

  -- The block after an answer.
  abbrev Becomes : View → View → Type 0
  Becomes v w = (w.block ≡ v.block) ⊎ (w.block ≡ some text)

  decrypted-Becomes :
      (run : Outcome) (v : View) (t : Text)
      → ShowsOne v
      → t ≡ text
      → Becomes v (decrypted run (some t) v)
  unfolding decrypted
  decrypted-Becomes run v [] h e = inl refl
  decrypted-Becomes (returned calls) v (c ∷ s) (inl h) e = rw h (inr (rw e refl))
  decrypted-Becomes (returned calls) v (c ∷ s) (inr h) e = rw h (inr (rw e refl))
  decrypted-Becomes (thrown calls) v (c ∷ s) (inl h) e = rw h (inr (rw e refl))
  decrypted-Becomes (thrown calls) v (c ∷ s) (inr h) e = rw h (inr (rw e refl))

  failed-Becomes : (run : Outcome) (v : View) → Becomes v (decrypted run none v)
  unfolding decrypted
  failed-Becomes run v = inl refl

  answer-Becomes :
      (run : Outcome) (cipher password : Text) (v : View)
      → IsSealed
      → IsOne cipher
      → ShowsOne v
      → Becomes v (decrypted run (aes_decrypt b cipher password) v)
  answer-Becomes run cipher password v h (inl e) s = elim (h.opens_or_fails password) [
    | inl f ↦ rw (e, f) (failed-Becomes run v)
    | inr f ↦ rw (e, f) (decrypted-Becomes run v text s refl)
  ]
  answer-Becomes run cipher password v h (inr e) s =
      rw (e, h.opened password) (failed-Becomes run v)

  ShowsOne-Becomes : (v w : View) → ShowsOne v → Becomes v w → ShowsOne w
  ShowsOne-Becomes v w (inl s) (inl e) = inl (rw e s)
  ShowsOne-Becomes v w (inr s) (inl e) = inr (rw e s)
  ShowsOne-Becomes v w s (inr e) = inr e

  All-Ends :
      {x : Text × Text} {xs rest : List (Text × Text)}
      → Ends x xs rest
      → All (λ y. IsOne y.0) xs
      → IsOne x.0 × All (λ y. IsOne y.0) rest
  All-Ends here h = h
  All-Ends (later e) (h, hs) = let (k, ks) = All-Ends e hs in (k, (h, ks))

  -- A step keeps the invariant, and the text once it is shown.
  abbrev IsStep : Dialog → Dialog → Type 0
  IsStep d e = IsKept e × (d.view.block ≡ some text → e.view.block ≡ some text)

  Becomes-text : (v w : View) → Becomes v w → v.block ≡ some text → w.block ≡ some text
  Becomes-text v w (inl e) h = e ∙ h
  Becomes-text v w (inr e) h = e

  try_password-IsStep :
      (password : Option Text) (d : Dialog) → IsKept d → IsStep d (try_password password d)
  unfolding try_password
  try_password-IsStep password d v =
      (record { shows = v.shows; waits = (cipher_text-IsOne d.view v.shows, v.waits) }, λ h. h)

  key_down-IsStep :
      (key : Text) (has_button : Bool) (password : Option Text) (d : Dialog)
      → IsKept d
      → IsStep d (key_down key has_button password d)
  unfolding key_down
  key_down-IsStep key false password d v = elim (Bool-cases (text_eq key (codes "Enter"))) [
    | inl e ↦ rw e (v, λ h. h)
    | inr e ↦ rw e (v, λ h. h)
  ]
  key_down-IsStep key true password d v = elim (Bool-cases (text_eq key (codes "Enter"))) [
    | inl e ↦ rw e (try_password-IsStep password d v)
    | inr e ↦ rw e (v, λ h. h)
  ]

  set_shown-IsStep : (shown : Bool) (d : Dialog) → IsKept d → IsStep d (set_shown shown d)
  set_shown-IsStep shown d v = (record { shows = v.shows; waits = v.waits }, λ h. h)

  answer-IsStep :
      (run : Outcome) (cipher password : Text) (rest : List (Text × Text)) (d : Dialog)
      → IsSealed
      → Ends (cipher, password) d.waiting rest
      → IsKept d
      → IsStep d (answer b run (cipher, password) rest d)
  unfolding answer
  answer-IsStep run cipher password rest d h e v =
      let (one, others) = All-Ends e v.waits in
      let becomes = answer-Becomes run cipher password d.view h one v.shows in
      let after = decrypted run (aes_decrypt b cipher password) d.view in
      (
        record { shows = ShowsOne-Becomes d.view after v.shows becomes; waits = others },
        Becomes-text d.view after becomes,
      )

  Step-IsStep : IsSealed → {d e : Dialog} → Step b d e → IsKept d → IsStep d e
  unfolding background_click
  Step-IsStep h (tried password d) v = try_password-IsStep password d v
  Step-IsStep h (typed key has_button password d) v = key_down-IsStep key has_button password d v
  Step-IsStep h (answered run (cipher, password) rest d e) v =
      answer-IsStep run cipher password rest d h e v
  Step-IsStep h (beside true d) v = set_shown-IsStep false d v
  Step-IsStep h (beside false d) v = (v, λ k. k)
  Step-IsStep h (switched shown d) v = set_shown-IsStep shown d v

  Reach-IsStep : IsSealed → {d e : Dialog} → Reach b d e → IsKept d → IsStep d e
  Reach-IsStep h at_start v = (v, λ k. k)
  Reach-IsStep h (and_then r s) v =
      let (u, k) = Reach-IsStep h r v in let (w, l) = Step-IsStep h s u in (w, λ x. l (k x))

  -- On a page that shows a payload, with no decryption under way, whichever passwords are tried, by
  -- click or by key, in whatever order the decryptions end, overlapping or not, and whatever is
  -- done with the modal: the code block always holds the payload or the text, and once it
  -- holds the text it keeps it. (Each password fails on the payload or gives the text, and none opens
  -- the text itself.)
  pub text_stays :
      (start d e : Dialog)
      → IsSealed
      → start.view.block ≡ some payload
      → start.waiting ≡ []
      → Reach b start d
      → Reach b d e
      → ((d.view.block ≡ some payload) ⊎ (d.view.block ≡ some text))
        × (d.view.block ≡ some text → e.view.block ≡ some text)
  text_stays start d e h hv hw r q =
      let kept = (Reach-IsStep h r (record { shows = inl hv; waits = rw hw tt })).0 in
      (kept.shows, (Reach-IsStep h q kept).1)
