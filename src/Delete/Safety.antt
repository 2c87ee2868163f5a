-- ===== src/Delete/Safety.antt =====
-- Every history of clicks and callbacks of the delete button.
use own_pastebin.Prelude.{
  ℕ, suc, ◌≤◌, true, List, [], ◌∷◌, ◌≡◌, refl, sym, ◌∙◌, arith, if◌then◌else◌, length, subst,
}
use own_pastebin.Page.{Env}
use own_pastebin.Delete.{
  Wait, fetching, parsing, Json, falsy, truthy, Deleter, start, click, respond, finish, fail,
}

-- One wait of a list of waits is over.
pub data Ends (w : Wait) : List Wait → List Wait → Type 0 where
  here : {ws : List Wait} → Ends w (w ∷ ws) ws
  later : {v : Wait} {ws rest : List Wait} → Ends w ws rest → Ends w (v ∷ ws) (v ∷ rest)

pub length-Ends : {w : Wait} {ws rest : List Wait} → Ends w ws rest → length ws ≡ suc (length rest)
length-Ends here = refl
length-Ends (later e) = omega (arith, length-Ends e)

-- What can happen next: a click at any time, or the end of a wait.
module _ (env : Env) where
  pub data Step : Deleter → Deleter → Type 0 where
    clicked : (s : Deleter) → Step s (click s)
    responded :
        (status : ℕ) (s : Deleter) (rest : List Wait)
        → Ends fetching s.pending rest
        → Step s (respond env status (record s { pending = rest }))
    parsed :
        (result : Json) (s : Deleter) (rest : List Wait)
        → Ends parsing s.pending rest
        → Step s (finish env result (record s { pending = rest }))
    failed :
        (w : Wait) (s : Deleter) (rest : List Wait)
        → Ends w s.pending rest
        → Step s (fail env (record s { pending = rest }))

  pub data Reach (s : Deleter) : Deleter → Type 0 where
    none_yet : Reach s s
    and_then : {t u : Deleter} → Reach s t → Step t u → Reach s u

  -- The flag is up while a wait is under way, and the button is disabled while the flag is up.
  pub record IsValid (s : Deleter) : Type 0 where
    pub one_wait : length s.pending ≤ (if s.in_flight then 1 else 0)
    pub shown : s.disabled ≡ s.in_flight

  click-IsValid : (s : Deleter) → IsValid s → IsValid (click s)
  unfolding click
  click-IsValid s v = ground arith

  respond-IsValid :
      (status : ℕ) (s : Deleter) (rest : List Wait)
      → length s.pending ≡ suc (length rest)
      → IsValid s
      → IsValid (respond env status (record s { pending = rest }))
  unfolding respond
  respond-IsValid status s rest e v = ground arith

  finish-IsValid :
      (result : Json) (s : Deleter) (rest : List Wait)
      → length s.pending ≡ suc (length rest)
      → IsValid s
      → IsValid (finish env result (record s { pending = rest }))
  unfolding finish
  finish-IsValid falsy s rest e v = ground arith
  finish-IsValid truthy s rest e v = ground arith

  fail-IsValid :
      (s : Deleter) (rest : List Wait)
      → length s.pending ≡ suc (length rest)
      → IsValid s
      → IsValid (fail env (record s { pending = rest }))
  unfolding fail
  fail-IsValid s rest e v = ground arith

  pub Step-IsValid : {s t : Deleter} → Step s t → IsValid s → IsValid t
  Step-IsValid (clicked s) v = click-IsValid s v
  Step-IsValid (responded status s rest e) v = respond-IsValid status s rest (length-Ends e) v
  Step-IsValid (parsed result s rest e) v = finish-IsValid result s rest (length-Ends e) v
  Step-IsValid (failed w s rest e) v = fail-IsValid s rest (length-Ends e) v

  pub Reach-IsValid : {s t : Deleter} → Reach s t → IsValid s → IsValid t
  Reach-IsValid none_yet v = v
  Reach-IsValid (and_then r st) v = Step-IsValid st (Reach-IsValid r v)

  start-IsValid : IsValid start
  unfolding start
  start-IsValid = ground arith

  -- Whatever is clicked and whatever comes back, from the page's load on: at most one wait is under
  -- way, none is if the flag is down, and the button is disabled exactly while the flag is up.
  pub delete_one_wait : (s : Deleter) → Reach start s → IsValid s
  delete_one_wait s r = Reach-IsValid r start-IsValid

  -- The deletion is over: the flag is up and nothing is awaited.
  pub record IsOver (s : Deleter) : Type 0 where
    pub flag : s.in_flight ≡ true
    pub idle : s.pending ≡ []

  not_over : {w : Wait} {ws rest : List Wait} → Ends w ws rest → ws ≡ [] → ⊥
  not_over here e = cc
  not_over (later _) e = cc

  Step-IsOver : {s t : Deleter} → Step s t → IsOver s → t ≡ s
  unfolding click
  Step-IsOver (clicked s) o = rw o.flag
  Step-IsOver (responded status s rest e) o = absurd (not_over e o.idle)
  Step-IsOver (parsed result s rest e) o = absurd (not_over e o.idle)
  Step-IsOver (failed w s rest e) o = absurd (not_over e o.idle)

  Reach-IsOver : {s t : Deleter} → Reach s t → IsOver s → t ≡ s
  Reach-IsOver none_yet o = refl
  Reach-IsOver {s} (and_then r st) o =
      let same = Reach-IsOver r o in Step-IsOver st (subst IsOver (sym same) o) ∙ same

  empty_of : (ws : List Wait) → length ws ≤ 0 → ws ≡ []
  empty_of [] h = refl
  empty_of (w ∷ ws) h = absurd (omega arith)

  finish-IsOver :
      (result : Json) (s : Deleter) (rest : List Wait)
      → IsValid s
      → length s.pending ≡ suc (length rest)
      → IsOver (finish env result (record s { pending = rest }))
  unfolding finish
  finish-IsOver falsy s rest v e = ground (arith, empty_of rest)
  finish-IsOver truthy s rest v e = ground (arith, empty_of rest)

  -- When the JSON of a successful response has come, on any history from the page's load, nothing
  -- changes any more, whatever is clicked: no second DELETE is sent.
  pub delete_sent_once :
      (s : Deleter) (rest : List Wait) (result : Json) (t : Deleter)
      → Reach start s
      → Ends parsing s.pending rest
      → Reach (finish env result (record s { pending = rest })) t
      → t ≡ finish env result (record s { pending = rest })
  delete_sent_once s rest result t r e r' =
      Reach-IsOver r' (finish-IsOver result s rest (delete_one_wait s r) (length-Ends e))
