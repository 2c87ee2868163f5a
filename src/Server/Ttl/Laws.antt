-- ===== src/Server/Ttl/Laws.antt =====
-- What the cap on the lifetime achieves, and where the product of the duration wraps past it.
use own_pastebin.Prelude.{
  ℕ, ◌+◌, ◌-◌, ◌*◌, ◌/◌, ◌<◌, ◌≤◌, ◌≡◌, none, some, ◌==◌, min, arith, if◌then◌else◌,
}
use own_pastebin.Server.Ttl.{
  pos, negsuc, word, half_word, nanoseconds, to_int64, seconds, resolve_ttl, expire_at,
}

seconds-small : (n : ℕ) → n * nanoseconds < half_word → seconds n ≡ pos (n * nanoseconds)
unfolding seconds to_int64
seconds-small n h = ground arith

seconds-wrapped :
    (n : ℕ)
    → half_word ≤ n * nanoseconds
    → n * nanoseconds < word
    → seconds n ≡ negsuc (word - n * nanoseconds - 1)
unfolding seconds to_int64
seconds-wrapped n h k = ground arith

-- With a cap on the lifetime, a request for any number of seconds below 9,223,372,037 gets an expiry
-- time: after the cap where 0 or no time was asked for, else after the lesser of the cap and the
-- time asked for. So nothing stays longer than the cap.
pub capped_expiry :
    (now cap n : ℕ)
    → 0 < cap
    → n * nanoseconds < half_word
    → expire_at now (resolve_ttl (pos cap) (seconds n))
      ≡ some ((now + (if n == 0 then cap else min cap (n * nanoseconds))) / nanoseconds)
unfolding resolve_ttl expire_at
capped_expiry now cap n hc hn = rw (seconds-small n hn) (ground arith)

-- A request for 9,223,372,037 to 18,446,744,073 seconds makes the paste permanent, whatever the cap
-- is: the product wraps to a negative duration, which is not above the cap.
pub wrapped_expiry :
    (now cap n : ℕ)
    → half_word ≤ n * nanoseconds
    → n * nanoseconds < word
    → expire_at now (resolve_ttl (pos cap) (seconds n)) ≡ none
unfolding resolve_ttl expire_at
wrapped_expiry now cap n h k = rw (seconds-wrapped n h k) (ground arith)
