-- ===== src/Server/Limiter/Idle.antt =====
-- What is not used is forgotten.
use own_pastebin.Prelude.{
  ℕ, ◌+◌, ◌<◌, ◌≤◌, ◌≡◌, ◌∙◌, ap, inl, inr, refl, arith, false, Bool-cases, Option, none, some,
  List, [], ◌∷◌, ◌++◌, ltb, Text, text_eq, All,
}
use own_pastebin.Server.Limiter.{Rate, Entry, Entries, evict, admit, sweep}
use own_pastebin.Server.Limiter.Laws.{Event, asks, sweeps}

-- An event does not come from the address.
abbrev pub Ignores : Text → ℕ × Event → Type 0
Ignores k (t, asks ip) = text_eq k ip ≡ false
Ignores k (t, sweeps) = Unit

module _ (r : Rate) (ttl : ℕ) where
  unfoldable pub step : ℕ × Event → Entries r → Entries r
  unfolding admit sweep
  step (t, asks ip) entries = (admit r t ip entries).1
  step (t, sweeps) entries = sweep r ttl t entries

  -- The entries after a history.
  abbrev pub run : List (ℕ × Event) → Entries r → Entries r
  run [] entries = entries
  run (e ∷ es) entries = run es (step e entries)

  run-append :
      (es fs : List (ℕ × Event)) (entries : Entries r)
      → run (es ++ fs) entries ≡ run fs (run es entries)
  run-append [] fs entries = refl
  run-append (e ∷ es) fs entries = run-append es fs (step e entries)

  abbrev IsPast : ℕ → Option (Entry r) → Type 0
  IsPast now none = Unit
  IsPast now (some e) = e.last_seen ≤ now

  evict-IsPast : (now t : ℕ) (o : Option (Entry r)) → IsPast now o → IsPast now (evict r ttl t o)
  evict-IsPast now t none h = tt
  evict-IsPast now t (some e) h = elim (Bool-cases (ltb (e.last_seen + ttl) t)) [
    | inl old ↦ rw old tt
    | inr young ↦ rw young h
  ]

  evict_old :
      (now t : ℕ) (o : Option (Entry r)) → IsPast now o → now + ttl < t → evict r ttl t o ≡ none
  evict_old now t none h old = refl
  evict_old now t (some e) h old = ground (arith, h, old)

  step-IsPast :
      (now : ℕ) (k : Text) (t : ℕ) (e : Event) (entries : Entries r)
      → t ≤ now
      → IsPast now (entries k)
      → IsPast now (step (t, e) entries k)
  unfolding step
  step-IsPast now k t (asks ip) entries le h = elim (Bool-cases (text_eq k ip)) [
    | inl e ↦ rw e le
    | inr e ↦ rw e h
  ]
  step-IsPast now k t sweeps entries le h = evict-IsPast now t (entries k) h

  run-IsPast :
      (now : ℕ) (k : Text) (es : List (ℕ × Event)) (entries : Entries r)
      → All (λ e. e.0 ≤ now) es
      → IsPast now (entries k)
      → IsPast now (run es entries k)
  run-IsPast now k [] entries les h = h
  run-IsPast now k ((t, e) ∷ es) entries (le, les) h =
      run-IsPast now k es (step (t, e) entries) les (step-IsPast now k t e entries le h)

  ignored-IsPast :
      (now : ℕ) (k : Text) (es : List (ℕ × Event)) (entries : Entries r)
      → All (Ignores k) es
      → IsPast now (entries k)
      → IsPast now (run es entries k)
  unfolding step
  ignored-IsPast now k [] entries ig h = h
  ignored-IsPast now k ((t, asks ip) ∷ es) entries (i, ig) h =
      ignored-IsPast now k es (step (t, asks ip) entries) ig (rw i h)
  ignored-IsPast now k ((t, sweeps) ∷ es) entries (i, ig) h =
      ignored-IsPast now k es (step (t, sweeps) entries) ig (evict-IsPast now t (entries k) h)

  ignored-none :
      (k : Text) (es : List (ℕ × Event)) (entries : Entries r)
      → All (Ignores k) es
      → entries k ≡ none
      → run es entries k ≡ none
  unfolding step
  ignored-none k [] entries ig h = h
  ignored-none k ((t, asks ip) ∷ es) entries (i, ig) h =
      ignored-none k es (step (t, asks ip) entries) ig (rw i h)
  ignored-none k ((t, sweeps) ∷ es) entries (i, ig) h =
      ignored-none k es (step (t, sweeps) entries) ig (ap (evict r ttl t) h)

  -- The map of the limiters does not keep an address that has gone away: once a cleanup comes later
  -- than the time to live after the last request of the address, its entry is gone, and it stays
  -- gone as long as the address sends nothing, whatever others send before and after.
  pub idle-evicted :
      (now t : ℕ) (k : Text) (es fs gs : List (ℕ × Event))
      → All (λ e. e.0 ≤ now) es
      → All (Ignores k) fs
      → now + ttl < t
      → All (Ignores k) gs
      → run (es ++ (fs ++ (t, sweeps) ∷ gs)) (λ j. none) k ≡ none
  unfolding step
  idle-evicted now t k es fs gs past ig old ig' =
      let at_es = run es (λ j. none) in
      let at_fs = run fs at_es in
      let h : IsPast now (at_fs k) =
        ignored-IsPast now k fs at_es ig (run-IsPast now k es (λ j. none) past tt) in
      ap (λ m. m k) (run-append es (fs ++ (t, sweeps) ∷ gs) (λ j. none))
      ∙ ap (λ m. m k) (run-append fs ((t, sweeps) ∷ gs) at_es)
      ∙ ignored-none k gs (step (t, sweeps) at_fs) ig' (evict_old now t (at_fs k) h old)
