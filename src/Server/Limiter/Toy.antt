-- ===== src/Server/Limiter/Toy.antt =====
-- A bucket that keeps the law.
use own_pastebin.Prelude.{ℕ, ◌+◌, ◌-◌, ◌≡◌, ◌<◌, arith, Bool, true, false, if◌then◌else◌, ltb}
use own_pastebin.Server.Limiter.{Rate}

-- The bucket: how many requests are left, and the time of the last one.
abbrev pub ask : ℕ → ℕ × ℕ → Bool × (ℕ × ℕ)
ask t (left, last) =
    let level = if ltb (last + 10) t then 2 else left in
    if ltb 0 level then (true, (level - 1, t)) else (false, (0, t))

pub ask_again : (t u : ℕ) (l : ℕ × ℕ) → t + 10 < u → ask u (ask t l).1 ≡ ask u (2, 0)
ask_again t u (left, last) h = ground arith

pub ask_first : (t : ℕ) → (ask t (2, 0)).0 ≡ true
ask_first t = ground arith

abbrev pub two : Rate
two = record {
  Limiter = ℕ × ℕ;
  fresh = (2, 0);
  allow = ask;
  refill = 10;
  full_again = λ t u l h. ask_again t u l h;
}
