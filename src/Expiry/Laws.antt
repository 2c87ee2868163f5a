-- ===== src/Expiry/Laws.antt =====
-- The unit that `formatExpiry` chooses, against the table of units.
use mathlib.Core.List.{Memᴰ}
use native.Mathlib.Decide.{dec_lt}
use own_pastebin.Prelude.{
  ℕ, ◌+◌, ◌*◌, ◌/◌, ◌≤◌, ◌<◌, List, [], ◌∷◌, ◌≡◌, ◌≢◌, refl, arith, All, Text, codes,
}
use own_pastebin.Page.{Env, decimal}
use own_pastebin.Expiry.{whole, counted, format_expiry}

-- The units with their seconds: a month has 30 days and a year 365.
abbrev pub unit_table : List (Text × ℕ)
unit_table =
    (codes "expiry-min", 60)
    ∷ (codes "expiry-hour", 60 * 60)
    ∷ (codes "expiry-day", 24 * 60 * 60)
    ∷ (codes "expiry-week", 7 * 24 * 60 * 60)
    ∷ (codes "expiry-month", 30 * 24 * 60 * 60)
    ∷ (codes "expiry-year", 365 * 24 * 60 * 60)
    ∷ []

-- A time is shown as a count of a unit of the table, rounded down, in the largest unit that is not
-- longer than the time; a time under a minute is shown in minutes.
pub record IsShown (env : Env) (n : ℕ) (shown : Text) : Type 0 where
  pub unit : Text × ℕ
  pub count : ℕ
  pub listed : Memᴰ unit unit_table
  pub spelled : shown ≡ counted env (decimal count) unit.0
  pub rounded : (count * unit.1 ≤ n) × (n < (count + 1) * unit.1)
  pub largest : All (λ (u : Text × ℕ). u.1 ≤ n → u.1 ≤ unit.1) unit_table

module _ (env : Env) (n : ℕ) where
  IsShown-in_min : n ≢ 0 → n < 3600 → IsShown env n (format_expiry env (whole n))
  unfolding format_expiry
  IsShown-in_min z hi = record {
    unit = (codes "expiry-min", 60);
    count = n / 60;
    listed = Memᴰ.head refl;
    spelled = ground arith;
    rounded = omega arith;
    largest = omega arith;
  }

  IsShown-in_hour : 3600 ≤ n → n < 86400 → IsShown env n (format_expiry env (whole n))
  unfolding format_expiry
  IsShown-in_hour lo hi = record {
    unit = (codes "expiry-hour", 3600);
    count = n / 3600;
    listed = Memᴰ.tail (Memᴰ.head refl);
    spelled = ground arith;
    rounded = omega arith;
    largest = omega arith;
  }

  IsShown-in_day : 86400 ≤ n → n < 604800 → IsShown env n (format_expiry env (whole n))
  unfolding format_expiry
  IsShown-in_day lo hi = record {
    unit = (codes "expiry-day", 86400);
    count = n / 86400;
    listed = Memᴰ.tail (Memᴰ.tail (Memᴰ.head refl));
    spelled = ground arith;
    rounded = omega arith;
    largest = omega arith;
  }

  IsShown-in_week : 604800 ≤ n → n < 2592000 → IsShown env n (format_expiry env (whole n))
  unfolding format_expiry
  IsShown-in_week lo hi = record {
    unit = (codes "expiry-week", 604800);
    count = n / 604800;
    listed = Memᴰ.tail (Memᴰ.tail (Memᴰ.tail (Memᴰ.head refl)));
    spelled = ground arith;
    rounded = omega arith;
    largest = omega arith;
  }

  IsShown-in_month : 2592000 ≤ n → n < 31536000 → IsShown env n (format_expiry env (whole n))
  unfolding format_expiry
  IsShown-in_month lo hi = record {
    unit = (codes "expiry-month", 2592000);
    count = n / 2592000;
    listed = Memᴰ.tail (Memᴰ.tail (Memᴰ.tail (Memᴰ.tail (Memᴰ.head refl))));
    spelled = ground arith;
    rounded = omega arith;
    largest = omega arith;
  }

  IsShown-in_year : 31536000 ≤ n → IsShown env n (format_expiry env (whole n))
  unfolding format_expiry
  IsShown-in_year lo = record {
    unit = (codes "expiry-year", 31536000);
    count = n / 31536000;
    listed = Memᴰ.tail (Memᴰ.tail (Memᴰ.tail (Memᴰ.tail (Memᴰ.tail (Memᴰ.head refl)))));
    spelled = ground arith;
    rounded = omega arith;
    largest = omega arith;
  }

-- Every time above zero is shown as a count of the largest unit of the table that fits into it,
-- rounded down; a time under a minute is shown in minutes.
pub format_expiry-IsShown :
    (env : Env) (n : ℕ) → n ≢ 0 → IsShown env n (format_expiry env (whole n))
format_expiry-IsShown env n z = elim (dec_lt n 3600) [
  | yes hi ↦ IsShown-in_min env n z hi
  | no above ↦ elim (dec_lt n 86400) [
    | yes hi ↦ IsShown-in_hour env n (omega arith) hi
    | no above ↦ elim (dec_lt n 604800) [
      | yes hi ↦ IsShown-in_day env n (omega arith) hi
      | no above ↦ elim (dec_lt n 2592000) [
        | yes hi ↦ IsShown-in_week env n (omega arith) hi
        | no above ↦ elim (dec_lt n 31536000) [
          | yes hi ↦ IsShown-in_month env n (omega arith) hi
          | no above ↦ IsShown-in_year env n (omega arith)
        ]
      ]
    ]
  ]
]
