-- ===== src/Base64.antt =====
-- `uint8ToBase64` of web/static/js/custom.js.
--
-- A byte array is a list of numbers, and a byte is its own code unit under `String.fromCharCode`.
-- `limit` is the engine's largest number of arguments: `apply` on a longer array throws, which is
-- `none`. `btoa` is the browser's, a parameter; it may throw too.
pub mod Chunks
mod Tests
use own_pastebin.Prelude.{
  ℕ, zero, suc, ◌+◌, ◌-◌, Option, none, some, List, [], ◌++◌, if◌then◌else◌, ltb, leb, length, take,
  drop, Text, ◌>>=◌,
}

abbrev pub chunk : ℕ
chunk = 8192

-- `arr.subarray(i, j)`
abbrev pub subarray : Text → ℕ → ℕ → Text
subarray arr i j = take (j - i) (drop i arr)

-- `String.fromCharCode.apply(null, part)`
unfoldable pub from_char_codes : ℕ → Text → Option Text
from_char_codes limit part = if leb (length part) limit then some part else none

-- The loop, from index `i` on. Each round moves `i` forward, so a fuel above the length is enough;
-- that the fuel ran out would be `none`.
unfoldable pub join_chunks : ℕ → ℕ → Text → ℕ → Text → Option Text
join_chunks zero limit arr i binary = none
join_chunks (suc fuel) limit arr i binary =
    let round =
      from_char_codes limit (subarray arr i (i + chunk))
      >>= (λ part. join_chunks fuel limit arr (i + chunk) (binary ++ part)) in
    if ltb i (length arr) then round else some binary

unfoldable pub uint8_to_base64 : ℕ → (Text → Option Text) → Text → Option Text
uint8_to_base64 limit btoa arr = do
  binary ← join_chunks (suc (length arr)) limit arr 0 []
  btoa binary
