-- ===== src/Base64/Chunks.antt =====
-- The chunks are joined to the whole array, whatever its length.
use own_pastebin.Prelude.{
  ℕ, zero, suc, ◌+◌, ◌-◌, ◌≤◌, ◌<◌, true, Option, some, [], ◌∷◌, ◌++◌, ◌≡◌, refl, sym, ◌∙◌, ap,
  arith, inl, inr, leb, length, drop, length-take, take-append-drop, le→leb, append_assoc,
  append-nil, Bool-cases, ltb, Text,
}
use own_pastebin.Base64.{chunk, subarray, from_char_codes, join_chunks, uint8_to_base64}

drop-drop : (i k : ℕ) (xs : Text) → drop (i + k) xs ≡ drop k (drop i xs)
drop-drop zero k xs = let e : zero + k ≡ k = omega arith in rw e
drop-drop (suc i) zero [] = let e : suc i + zero ≡ suc i = omega arith in rw e
drop-drop (suc i) (suc k) [] = let e : suc i + suc k ≡ suc (i + suc k) = omega arith in rw e
drop-drop (suc i) k (x ∷ xs) =
    let e : suc i + k ≡ suc (i + k) = omega arith in rw e (drop-drop i k xs)

drop_past : (i : ℕ) (xs : Text) → length xs ≤ i → drop i xs ≡ []
drop_past zero [] h = refl
drop_past zero (x ∷ xs) h = absurd (omega arith)
drop_past (suc i) [] h = refl
drop_past (suc i) (x ∷ xs) h = drop_past i xs (omega arith)

from_char_codes-chunk :
    (limit i : ℕ) (arr : Text)
    → chunk ≤ limit
    → from_char_codes limit (subarray arr i (i + chunk)) ≡ some (subarray arr i (i + chunk))
unfolding from_char_codes
from_char_codes-chunk limit i arr h =
    let short : leb (length (subarray arr i (i + chunk))) limit ≡ true =
      le→leb _ _ (omega (arith, length-take (i + chunk - i) (drop i arr))) in
    rw short

subarray-append-drop :
    (i k : ℕ) (arr : Text) → subarray arr i (i + k) ++ drop (i + k) arr ≡ drop i arr
subarray-append-drop i k arr =
    let width : i + k - i ≡ k = omega arith in
    rw (width, drop-drop i k arr) (take-append-drop k (drop i arr))

join_chunks_rest :
    (fuel limit i : ℕ) (arr binary : Text)
    → chunk ≤ limit
    → length arr - i < fuel
    → join_chunks fuel limit arr i binary ≡ some (binary ++ drop i arr)
unfolding join_chunks
join_chunks_rest zero limit i arr binary h f = absurd (omega arith)
join_chunks_rest (suc fuel) limit i arr binary h f = elim (Bool-cases (ltb i (length arr))) [
  | inl more ↦
      rw (more, from_char_codes-chunk limit i arr h)
        (join_chunks_rest fuel limit (i + chunk) arr (binary ++ subarray arr i (i + chunk)) h
            (ground arith)
          ∙ ap some (
              append_assoc binary (subarray arr i (i + chunk)) (drop (i + chunk) arr)
              ∙ ap (λ t. binary ++ t) (subarray-append-drop i chunk arr)))
  | inr done ↦ rw done (
      ap some
        (sym (append-nil binary) ∙ ap (λ t. binary ++ t) (sym (drop_past i arr (ground arith)))))
]

-- Where the engine takes at least 8192 arguments, `uint8ToBase64` throws no range error for an array of
-- any length, and its result is that of `btoa` on the array's bytes as one text.
pub uint8_to_base64-btoa :
    (limit : ℕ) (btoa : Text → Option Text) (arr : Text)
    → chunk ≤ limit
    → uint8_to_base64 limit btoa arr ≡ btoa arr
unfolding uint8_to_base64
uint8_to_base64-btoa limit btoa arr h =
    rw (join_chunks_rest (suc (length arr)) limit 0 arr [] h (omega arith))
