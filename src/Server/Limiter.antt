-- ===== src/Server/Limiter.antt =====
-- The limit on the rate of requests: `realIP`, `ipRateLimiter` and `rateLimitMiddleware` of
-- internal/middleware.go.
--
-- The token bucket is the library golang.org/x/time/rate: `Rate` has its operations with what the
-- library documents. The map of the entries is a function. A request takes its bucket and asks it in
-- one step; times are those of the clock at each event.
pub mod Laws
pub mod Bypass
pub mod Idle
pub mod Toy
mod Tests
use own_pastebin.Prelude.{
  ℕ, ◌+◌, ◌<◌, ◌≡◌, Bool, true, false, Option, none, some, List, [], ◌∷◌, if◌then◌else◌, ltb, Text,
  text_eq,
}
use own_pastebin.Server.Strings.{trim_space, split_at}

pub record Rate : Type 1 where
  pub Limiter : Type 0
  pub fresh : Limiter  -- `rate.NewLimiter`, a full bucket
  pub allow : ℕ → Limiter → Bool × Limiter
  pub refill : ℕ  -- the time in which an empty bucket gets full
  -- A bucket that was not asked for longer than that is full again.
  pub full_again : (t u : ℕ) (l : Limiter) → t + refill < u → allow u (allow t l).1 ≡ allow u fresh

-- The address of the peer, and the header "X-Forwarded-For" (empty where there is none).
pub record Sender : Type 0 where
  pub remote : Text
  pub forwarded : Text

abbrev pub left_most : Text → Option (Text × Text) → Text
left_most xff none = xff
left_most xff (some (first, rest)) = trim_space first

abbrev pub forwarded_or : Text → Text → Text
forwarded_or remote [] = remote
forwarded_or remote (c ∷ xff) = left_most (c ∷ xff) (split_at b',' (c ∷ xff))

-- `realIP`; the trusted network, if there is one, tells the peers' addresses that it contains.
unfoldable pub real_ip : Option (Text → Bool) → Sender → Text
real_ip none s = s.remote
real_ip (some contains) s =
    if contains s.remote then forwarded_or s.remote (trim_space s.forwarded) else s.remote

module _ (r : Rate) where
  pub record Entry : Type 0 where
    pub lim : r.Limiter
    pub last_seen : ℕ

  abbrev pub Entries : Type 0
  Entries = Text → Option Entry

  abbrev pub bucket_of : Option Entry → r.Limiter
  bucket_of none = r.fresh
  bucket_of (some e) = e.lim

  -- `get` and the call of `Allow` on what it returns.
  unfoldable pub admit : ℕ → Text → Entries → Bool × Entries
  admit now ip entries =
      let asked = r.allow now (bucket_of (entries ip)) in
      (
        asked.0,
        λ k. if text_eq k ip then some (record { lim = asked.1; last_seen = now }) else entries k,
      )

  -- `e.lastSeen.Before(cutoff)`
  abbrev pub evict : ℕ → ℕ → Option Entry → Option Entry
  evict ttl now none = none
  evict ttl now (some e) = if ltb (e.last_seen + ttl) now then none else some e

  -- The body of `cleanupLoop`.
  unfoldable pub sweep : ℕ → ℕ → Entries → Entries
  sweep ttl now entries = λ k. evict ttl now (entries k)

-- `rateLimitMiddleware` around a handler: `refused` is the answer 429.
unfoldable pub rate_limited :
    {R S : Type 0} (r : Rate)
    → Option (Text → Bool)
    → ℕ
    → Sender
    → R
    → (S → R × S)
    → Entries r × S
    → R × (Entries r × S)
unfolding admit real_ip
rate_limited r trusted now s refused next (entries, state) =
    let (ok, entries') = admit r now (real_ip trusted s) entries in
    let (reply, state') = next state in
    if ok then (reply, (entries', state')) else (refused, (entries', state))
