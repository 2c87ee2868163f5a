-- ===== src/Server/Ttl.antt =====
-- The lifetime of a paste: the `ttl` parameter in `handleCreatePaste` (internal/routes.go),
-- `resolveTTL` (internal/config.go), and the expiry time that `Save` (internal/storage.go) computes.
--
-- A `time.Duration` is an int64 of nanoseconds; its product wraps. The clock is in nanoseconds
-- since the epoch.
pub mod Laws
pub mod Decimal
mod Tests
use own_pastebin.Prelude.{
  ℕ, ◌+◌, ◌-◌, ◌*◌, ◌/◌, ◌%◌, Bool, true, false, ◌&&◌, Option, none, some, [], ◌∷◌, ◌==◌,
  if◌then◌else◌, ltb, leb, Text, all, is_digit,
}

-- `negsuc n` is -(n + 1).
pub data ℤ : Type 0 where
  pos negsuc : ℕ → ℤ

abbrev pub word : ℕ
word = 18446744073709551616

abbrev pub half_word : ℕ
half_word = 9223372036854775808

abbrev pub nanoseconds : ℕ
nanoseconds = 1000000000

-- The int64 that a number wraps to.
unfoldable pub to_int64 : ℕ → ℤ
to_int64 n = let m = n % word in if ltb m half_word then pos m else negsuc (word - m - 1)

abbrev pub digits_value : ℕ → Text → ℕ
digits_value acc [] = acc
digits_value acc (c ∷ s) = digits_value (acc * 10 + (c - b'0')) s

abbrev pub is_number : Text → Bool
is_number [] = false
is_number (c ∷ s) = all is_digit (c ∷ s)

-- `strconv.ParseInt(s, 10, 64)`; `none` is an error.
unfoldable pub parse_digits : Bool → Text → Option ℤ
parse_digits negative s =
    let n = digits_value 0 s in
    if is_number s
    then (if negative
        then (if n == 0
            then some (pos 0)
            else if leb n half_word
            then some (negsuc (n - 1))
            else none)
        else if ltb n half_word
        then some (pos n)
        else none)
    else none

unfoldable pub parse_int : Text → Option ℤ
unfolding parse_digits
parse_int [] = none
parse_int (c ∷ s) =
    if c == b'-'
    then parse_digits true s
    else if c == b'+'
    then parse_digits false s
    else parse_digits false (c ∷ s)

-- `time.Duration(n) * time.Second`, where n is not negative.
unfoldable pub seconds : ℕ → ℤ
unfolding to_int64
seconds n = to_int64 (n * nanoseconds)

abbrev pub requested_of : Option ℤ → Option ℤ
requested_of none = none
requested_of (some (negsuc n)) = none
requested_of (some (pos n)) = some (seconds n)

-- The duration that the parameter asks for; `none` is the answer "invalid ttl".
unfoldable pub requested_ttl : Text → Option ℤ
unfolding parse_int seconds
requested_ttl [] = some (pos 0)
requested_ttl (c ∷ s) = requested_of (parse_int (c ∷ s))

abbrev pub is_zero : ℤ → Bool
is_zero (pos n) = n == 0
is_zero (negsuc n) = false

-- `a > b`
abbrev pub gt : ℤ → ℤ → Bool
gt (pos a) (pos b) = ltb b a
gt (pos a) (negsuc b) = true
gt (negsuc a) (pos b) = false
gt (negsuc a) (negsuc b) = ltb a b

-- `Settings.resolveTTL`
unfoldable pub resolve_ttl : ℤ → ℤ → ℤ
resolve_ttl max_ttl requested =
    if is_zero max_ttl
    then requested
    else if is_zero requested
    then max_ttl
    else if gt requested max_ttl
    then max_ttl
    else requested

-- `time.Now().Add(ttl).Unix()` where the duration is positive, else no expiry.
unfoldable pub expire_at : ℕ → ℤ → Option ℕ
expire_at now (negsuc n) = none
expire_at now (pos n) = if n == 0 then none else some ((now + n) / nanoseconds)
