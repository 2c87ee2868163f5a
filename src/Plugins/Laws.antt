-- ===== src/Plugins/Laws.antt =====
-- A list that names `init_plugins` makes it call itself without end; another list is called in order.
use own_pastebin.Prelude.{
  ℕ, zero, suc, true, false, List, [], ◌∷◌, ◌++◌, ◌≡◌, refl, inl, inr, Bool-cases, All,
  if◌then◌else◌, append_assoc, append-nil, Text, text_eq,
}
use own_pastebin.Plugins.{
  names, Window, Outcome, returned, thrown, ◌>>=◌, own_name, call_name, run_names, init_plugins,
}

-- The run ends by an exception.
abbrev pub Throws : Outcome → Type 0
Throws o = (calls : List Text) × (o ≡ thrown calls)

>>=-Throws :
    (o : Outcome) (k : List Text → Outcome)
    → ((calls : List Text) → Throws (k calls))
    → Throws (o >>= k)
>>=-Throws (returned calls) k h = h calls
>>=-Throws (thrown calls) k h = (calls, refl)

Throws->>= : (o : Outcome) (k : List Text → Outcome) → Throws o → Throws (o >>= k)
Throws->>= o k (calls, e) = (calls, rw e refl)

-- The functions of the window that a list names, in its order.
abbrev pub called : Window → List Text → List Text
called w [] = []
called w (name ∷ ns) = if w.is_function name then name ∷ called w ns else called w ns

module _ (w : Window) where
  run_names-Throws :
      (self : List Text → Outcome) (before after calls : List Text)
      → ((calls : List Text) → Throws (self calls))
      → Throws (run_names w self (before ++ own_name ∷ after) calls)
  unfolding run_names call_name
  run_names-Throws self [] after calls h =
      Throws->>= (self calls) (run_names w self after) (h calls)
  run_names-Throws self (name ∷ before) after calls h =
      >>=-Throws (call_name w self name calls) (run_names w self (before ++ own_name ∷ after))
        (λ later. run_names-Throws self before after later h)

  -- A list of names with `init_plugins` in it makes `init_plugins` throw: it calls itself until the
  -- engine's limit, whatever that is, and whatever the other functions do.
  pub init_plugins-Throws :
      (before after : List Text) (depth : ℕ) (calls : List Text)
      → Throws (init_plugins w (names (before ++ own_name ∷ after)) depth calls)
  unfolding init_plugins
  init_plugins-Throws before after zero calls = (calls, refl)
  init_plugins-Throws before after (suc depth) calls =
      run_names-Throws (init_plugins w (names (before ++ own_name ∷ after)) depth) before after
        (calls ++ own_name ∷ []) (init_plugins-Throws before after depth)

  run_names-called :
      (self : List Text → Outcome) (ns calls : List Text)
      → All (λ n. text_eq n own_name ≡ false) ns
      → All (λ n. w.completes n ≡ true) ns
      → run_names w self ns calls ≡ returned (calls ++ called w ns)
  unfolding run_names call_name
  run_names-called self [] calls h c = rw append-nil
  run_names-called self (name ∷ ns) calls h c = elim (Bool-cases (w.is_function name)) [
    | inl e ↦
        rw (h.0, e, c.0)
          (rw (run_names-called self ns (calls ++ name ∷ []) h.1 c.1) (rw append_assoc))
    | inr e ↦ rw (h.0, e) (run_names-called self ns calls h.1 c.1)
  ]

  -- A list of names without `init_plugins`, whose functions return: `init_plugins` calls those
  -- that are functions of the window, once for each time that they are named and in
  -- the order of the list, and returns, whatever the engine's limit is.
  pub init_plugins-called :
      (ns : List Text) (depth : ℕ) (calls : List Text)
      → All (λ n. text_eq n own_name ≡ false) ns
      → All (λ n. w.completes n ≡ true) ns
      → init_plugins w (names ns) (suc depth) calls
        ≡ returned ((calls ++ own_name ∷ []) ++ called w ns)
  unfolding init_plugins
  init_plugins-called ns depth calls h c =
      run_names-called (init_plugins w (names ns) depth) ns (calls ++ own_name ∷ []) h c
