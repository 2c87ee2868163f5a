-- ===== src/Plugins.antt =====
-- `init_plugins` of web/static/js/custom.js: the call of the functions that the page's JSON names.
--
-- The script's own function `init_plugins` is a property of the window like any other global function,
-- so that a name in the list may call it again. `depth` is how deep the engine lets calls nest; a
-- call below that throws a RangeError. `calls` lists the functions called so far.
pub mod Laws
mod Tests
use own_pastebin.Prelude.{
  ℕ, zero, suc, Bool, List, [], ◌∷◌, ◌++◌, if◌then◌else◌, Text, codes, text_eq,
}

-- What the element "plugin-inits" holds: there is none, or its text is no JSON, or JSON that cannot
-- be iterated, or a list of names.
pub data Inits : Type 0 where
  missing malformed not_iterable : Inits
  names : List Text → Inits

-- The other functions of the window, and whether a call of one returns or throws.
pub record Window : Type 0 where
  pub is_function : Text → Bool
  pub completes : Text → Bool

pub data Outcome : Type 0 where
  returned thrown : List Text → Outcome

infixl 5 ◌>>=◌
abbrev pub ◌>>=◌ : Outcome → (List Text → Outcome) → Outcome
returned calls >>= k = k calls
thrown calls >>= k = thrown calls

abbrev pub own_name : Text
own_name = codes "init_plugins"

-- The body of the loop: `self` is the function itself.
unfoldable pub call_name : Window → (List Text → Outcome) → Text → List Text → Outcome
call_name w self name calls =
    if text_eq name own_name
    then self calls
    else if w.is_function name
    then (if w.completes name then returned (calls ++ name ∷ []) else thrown (calls ++ name ∷ []))
    else returned calls

unfoldable pub run_names : Window → (List Text → Outcome) → List Text → List Text → Outcome
unfolding call_name
run_names w self [] calls = returned calls
run_names w self (name ∷ ns) calls = call_name w self name calls >>= run_names w self ns

abbrev pub run_inits : Window → (List Text → Outcome) → Inits → List Text → Outcome
run_inits w self missing calls = returned calls
run_inits w self malformed calls = returned calls
run_inits w self not_iterable calls = thrown calls
run_inits w self (names ns) calls = run_names w self ns calls

unfoldable pub init_plugins : Window → Inits → ℕ → List Text → Outcome
unfolding run_names
init_plugins w inits zero calls = thrown calls
init_plugins w inits (suc depth) calls =
    run_inits w (init_plugins w inits depth) inits (calls ++ own_name ∷ [])
