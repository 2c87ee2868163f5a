-- ===== src/Server/Ttl/Tests.antt =====
-- Lifetimes at an input: a cap of an hour.
use own_pastebin.Prelude.{ℕ, ◌*◌, none, some, ◌≡◌, refl, arith, codes}
use own_pastebin.Server.Ttl.{pos, nanoseconds, seconds, requested_ttl, resolve_ttl, expire_at}
use own_pastebin.Server.Ttl.Laws.{capped_expiry, wrapped_expiry}

abbrev hour : ℕ
hour = 3600 * nanoseconds

capped_expiry_example : expire_at (5 * nanoseconds) (resolve_ttl (pos hour) (seconds 60)) ≡ some 65
capped_expiry_example = capped_expiry (5 * nanoseconds) hour 60 (omega arith) (omega arith)

wrapped_expiry_example :
    expire_at (5 * nanoseconds) (resolve_ttl (pos hour) (seconds 10000000000)) ≡ none
wrapped_expiry_example =
    wrapped_expiry (5 * nanoseconds) hour 10000000000 (omega arith) (omega arith)

negative_refused : requested_ttl (codes "-5") ≡ none
unfolding requested_ttl
negative_refused = refl
