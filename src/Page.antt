-- ===== src/Page.antt =====
-- What the handlers of the page script share: the constants of the page, `t` with the current
-- catalogue, the decimal text of a number, and the test of a response's status.
use own_pastebin.Prelude.{
  ℕ, zero, suc, ◌+◌, ◌/◌, ◌%◌, Bool, ◌&&◌, [], ◌∷◌, leb, ltb, if◌then◌else◌, Text, codes,
}
use own_pastebin.I18n.Translate.{Catalogue, translate}

-- `r.ok`
abbrev pub is_ok : ℕ → Bool
is_ok status = leb 200 status && ltb status 300

-- The decimal text of a number; a number has fewer digits than the fuel, its successor.
unfoldable pub digits_from : ℕ → ℕ → Text → Text
digits_from zero n tail = tail
digits_from (suc fuel) n tail =
    let more = digits_from fuel (n / 10) ((b'0' + n % 10) ∷ tail) in
    if ltb n 10 then (b'0' + n) ∷ tail else more

unfoldable pub decimal : ℕ → Text
unfolding digits_from
decimal n = digits_from (suc n) n []

-- What the callbacks of a page read.
pub record Env : Type 0 where
  pub prefix : Text
  pub catalogue : Catalogue
  pub encode : Text → Text

-- `t(key)`
abbrev pub say : Env → Text → Text
say env key = translate env.catalogue key [] []

-- `t(key, { status })`
abbrev pub say_status : Env → Text → ℕ → Text
say_status env key status = translate env.catalogue key ((codes "status", decimal status) ∷ []) []
