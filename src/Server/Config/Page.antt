-- ===== src/Server/Config/Page.antt =====
-- The default lifetime on its way from the environment to the form and back: `DefaultExpiry` of
-- `baseData` in internal/routes.go.
use own_pastebin.Prelude.{
  ℕ, suc, ◌-◌, ◌*◌, ◌/◌, ◌<◌, ◌≤◌, ◌≡◌, ◌∙◌, ap, arith, some, ◌∷◌, ◌++◌, ◌==◌, if◌then◌else◌, Text,
}
use own_pastebin.Page.{decimal}
use own_pastebin.Server.Ttl.{
  ℤ, pos, negsuc, half_word, nanoseconds, to_int64, seconds, requested_ttl,
}
use own_pastebin.Server.Ttl.Decimal.{parse_int-decimal}
use own_pastebin.Server.Config.{parse_time}
use own_pastebin.Server.Config.Options.{requested_ttl-number}
use own_pastebin.Server.Config.Time.{
  TimeUnit, months, days, hours, bare, suffix, span, parse_time-print,
}

-- `int64(d.Seconds())`; the seconds are a float64, which is exact for a duration of whole seconds, as
-- the settings are.
unfoldable pub seconds_of : ℤ → ℤ
seconds_of (pos n) = pos (n / nanoseconds)
seconds_of (negsuc n) = let s = suc n / nanoseconds in if s == 0 then pos 0 else negsuc (s - 1)

-- `strconv.FormatInt(n, 10)`
abbrev pub format_int : ℤ → Text
format_int (pos n) = decimal n
format_int (negsuc n) = b'-' ∷ decimal (suc n)

unfoldable pub default_expiry : ℤ → Text
unfolding seconds_of
default_expiry d = format_int (seconds_of d)

whole_seconds : (n : ℕ) (u : TimeUnit) → n * span u / nanoseconds * nanoseconds ≡ n * span u
whole_seconds n months = omega arith
whole_seconds n days = omega arith
whole_seconds n hours = omega arith
whole_seconds n TimeUnit.seconds = omega arith
whole_seconds n bare = omega arith

le-span : (n : ℕ) (u : TimeUnit) → n ≤ n * span u
le-span n months = omega arith
le-span n days = omega arith
le-span n hours = omega arith
le-span n TimeUnit.seconds = omega arith
le-span n bare = omega arith

seconds-fits : (m : ℕ) → m * nanoseconds < half_word → seconds m ≡ pos (m * nanoseconds)
unfolding seconds to_int64
seconds-fits m h = ground arith

-- The lifetime that PASTEBIN_DEFAULT_TTL sets, a number with or without a unit, is the one that an
-- upload asks for with the default of the page, if the number of nanoseconds fits into an int64.
pub default_expiry-requested :
    (n : ℕ) (u : TimeUnit)
    → n * span u < half_word
    → requested_ttl (default_expiry (parse_time (decimal n ++ suffix u))) ≡ some (pos (n * span u))
unfolding default_expiry
default_expiry-requested n u h =
    let s : ℕ = n * span u / nanoseconds in
    let whole : s * nanoseconds ≡ n * span u = whole_seconds n u in
    ap (λ d. requested_ttl (default_expiry d)) (parse_time-print n u (omega (arith, le-span n u)) h)
    ∙ requested_ttl-number (decimal s) s (parse_int-decimal s (omega arith))
    ∙ ap some (seconds-fits s (omega arith))
    ∙ ap (λ k. some (pos k)) whole
