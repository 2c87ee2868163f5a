-- ===== src/Server/Routes/Slots/Laws.antt =====
-- No slot is lost, and no paste.
use mathlib.Core.Option
use own_pastebin.Prelude.{
  ℕ, zero, suc, ◌≤◌, ◌≡◌, ◌≢◌, ◌⊎◌, ◌∙◌, Option-cases, refl, sym, ap, arith, true, Bool-cases, inl,
  inr, Option, none, some, List, [], ◌∷◌, ltb, length, take, Text, text_eq, text_eq_sound,
}
use own_pastebin.Server.Store.{Paste, Table, find}
use own_pastebin.Server.Routes.{App, Upload, Reply, refused, is_above, handle_create}
use own_pastebin.Server.Routes.Create.{IsSaved, handle_create-IsSaved}
use own_pastebin.Server.Routes.Slots.{
  Pool, pull, acquire, arrive_read, arrive, finish_pulled, finish, Step, arrives, finishes, Reach,
  at_start, and_then,
}

abbrev status_in : Option Reply → ℕ
status_in (some (refused status)) = status
status_in o = 0

not_busy : (status : ℕ) → status ≢ 503 → some (refused status) ≢ some (refused 503)
not_busy status h e = h (ap status_in e)

module _ (app : App) (slots : ℕ) where
  -- The tokens are those of the handlers that work, and no more than there are slots.
  pub record IsSound (s : Pool) : Type 0 where
    pub counted : s.taken ≡ length s.working
    pub bounded : s.taken ≤ slots

  acquire-IsSound : (u : Upload) (s : Pool) → IsSound s → IsSound (acquire app slots u s).1
  acquire-IsSound u s v = ground (arith, v)

  arrive_read-IsSound :
      (u : Upload) (s : Pool) (o : Option Text)
      → IsSound s
      → IsSound (arrive_read app slots u s o).1
  arrive_read-IsSound u s none v = v
  arrive_read-IsSound u s (some []) v = v
  arrive_read-IsSound u s (some (c ∷ raw)) v = acquire-IsSound u s v

  arrive-IsSound : (u : Upload) (s : Pool) → IsSound s → IsSound (arrive app slots u s).1
  unfolding arrive
  arrive-IsSound u s v = elim (Bool-cases (is_above app 0 u.content_length)) [
    | inl e ↦ rw e v
    | inr e ↦ rw e (arrive_read-IsSound u s (Option.map (take app.max_paste_size) u.body) v)
  ]

  pulled_one :
      (i : ℕ) (us vs : List Upload) (u : Upload)
      → pull i us ≡ some (u, vs)
      → length us ≡ suc (length vs)
  pulled_one i [] vs u e = cc e
  pulled_one zero (v ∷ us) vs u e = ap (λ l. suc (length l)) (cc e)
  pulled_one (suc i) (v ∷ us) vs u e = elim (Option-cases (pull i us)) [
    | inl q ↦ absurd (cc (rw q at e))
    | inr ((w, ws), q) ↦
        let same : v ∷ ws ≡ vs = cc (rw q at e) in
        ap suc (pulled_one i us ws w q) ∙ ap (λ l. suc (length l)) same
  ]

  finish-IsSound :
      (now : ℕ) (s : Pool) (i : ℕ) (o : Option (Upload × List Upload))
      → pull i s.working ≡ o
      → IsSound s
      → IsSound (finish_pulled app slots now s o).1
  finish-IsSound now s i none e v = v
  finish-IsSound now s i (some (u, us)) e v = omega (arith, pulled_one i s.working us u e, v)

  Step-IsSound : {s t : Pool} → Step app slots s t → IsSound s → IsSound t
  unfolding finish
  Step-IsSound (arrives u s) v = arrive-IsSound u s v
  Step-IsSound (finishes now i s) v = finish-IsSound now s i (pull i s.working) refl v

  -- A paste that is there stays, under its id.
  saved_kept :
      (rows : Table) (id : Text) (p : Paste) (result : Reply × Table)
      → IsSaved app rows result
      → find id rows ≡ some p
      → find id result.1 ≡ some p
  unfolding find
  saved_kept rows id p result (inl (status, e)) h = rw e h
  saved_kept rows id p result (inr (k, q, free, e)) h = elim (Bool-cases (text_eq k id)) [
    | inl same ↦ absurd (cc (sym free ∙ ap (λ j. find j rows) (text_eq_sound k id same) ∙ h))
    | inr other ↦ rw e (rw other h)
  ]

  arrive-rows : (u : Upload) (s : Pool) → (arrive app slots u s).1.rows ≡ s.rows
  unfolding arrive
  arrive-rows u s = elim (Bool-cases (is_above app 0 u.content_length)) [
    | inl e ↦ rw e refl
    | inr e ↦ rw e (read (Option.map (take app.max_paste_size) u.body))
  ]
    where
      read : (o : Option Text) → (arrive_read app slots u s o).1.rows ≡ s.rows
      read none = refl
      read (some []) = refl
      read (some (c ∷ raw)) = elim (Bool-cases (ltb s.taken slots)) [
        | inl e ↦ rw e refl
        | inr e ↦ rw e refl
      ]

  finish-kept :
      (now : ℕ) (s : Pool) (id : Text) (p : Paste) (o : Option (Upload × List Upload))
      → find id s.rows ≡ some p
      → find id (finish_pulled app slots now s o).1.rows ≡ some p
  finish-kept now s id p none h = h
  finish-kept now s id p (some (u, us)) h =
      saved_kept s.rows id p (handle_create app now (record u { slot_free = true }) s.rows)
        (handle_create-IsSaved app s.rows now (record u { slot_free = true })) h

  Step-kept :
      {s t : Pool} (id : Text) (p : Paste)
      → Step app slots s t
      → find id s.rows ≡ some p
      → find id t.rows ≡ some p
  unfolding finish
  Step-kept id p (arrives u s) h = ap (find id) (arrive-rows u s) ∙ h
  Step-kept id p (finishes now i s) h = finish-kept now s id p (pull i s.working) h

  Reach-IsSound : {s t : Pool} → Reach app slots s t → IsSound s → IsSound t
  Reach-IsSound at_start v = v
  Reach-IsSound (and_then r st) v = Step-IsSound st (Reach-IsSound r v)

  Reach-kept :
      {s t : Pool} (id : Text) (p : Paste)
      → Reach app slots s t
      → find id s.rows ≡ some p
      → find id t.rows ≡ some p
  Reach-kept id p at_start h = h
  Reach-kept id p (and_then r st) h = Step-kept id p st (Reach-kept id p r h)

  busy_full :
      (u : Upload) (s : Pool)
      → IsSound s
      → ((arrive app slots u s).0 ≢ some (refused 503)) ⊎ (length s.working ≡ slots)
  unfolding arrive
  busy_full u s v = elim (Bool-cases (is_above app 0 u.content_length)) [
    | inl e ↦ rw e (inl (not_busy 413 (omega arith)))
    | inr e ↦ rw e (read (Option.map (take app.max_paste_size) u.body))
  ]
    where
      read :
          (o : Option Text)
          → ((arrive_read app slots u s o).0 ≢ some (refused 503)) ⊎ (length s.working ≡ slots)
      read none = inl (not_busy 500 (omega arith))
      read (some []) = inl (not_busy 400 (omega arith))
      read (some (c ∷ raw)) = elim (Bool-cases (ltb s.taken slots)) [
        | inl e ↦ rw e (inl (λ q. cc q))
        | inr e ↦ rw e (inr (ground (arith, v, e)))
      ]

  -- However uploads come and end, from a server without work on: each slot that is taken belongs to a
  -- handler that works, so none is lost, whichever branch a handler returns from; no more handlers
  -- work than there are slots; an upload is answered 503 only if all slots are taken; and a paste that
  -- is there stays as it is.
  pub slots_kept :
      {s t : Pool} (u : Upload) (id : Text) (p : Paste)
      → s.taken ≡ 0
      → s.working ≡ []
      → find id s.rows ≡ some p
      → Reach app slots s t
      → (t.taken ≡ length t.working)
        × (length t.working ≤ slots)
        × (((arrive app slots u t).0 ≢ some (refused 503)) ⊎ (length t.working ≡ slots))
        × (find id t.rows ≡ some p)
  slots_kept {s} {t} u id p none_taken idle h r =
      let v : IsSound t =
        Reach-IsSound r
          (record { counted = none_taken ∙ sym (ap length idle); bounded = omega arith }) in
      (v.counted, omega (arith, v), busy_full u t v, Reach-kept id p r h)
