-- ===== src/Base64/Tests.antt =====
-- The theorem on chunks at an input.
use own_pastebin.Prelude.{some, none, [], ◌∷◌, ◌≡◌, refl, arith}
use own_pastebin.Base64.{uint8_to_base64, join_chunks, from_char_codes}
use own_pastebin.Base64.Chunks.{uint8_to_base64-btoa}

three_bytes : uint8_to_base64 65536 (λ s. some s) (1 ∷ 2 ∷ 3 ∷ []) ≡ some (1 ∷ 2 ∷ 3 ∷ [])
unfolding uint8_to_base64 join_chunks from_char_codes
three_bytes = refl

too_many : uint8_to_base64 2 (λ s. some s) (1 ∷ 2 ∷ 3 ∷ []) ≡ none
unfolding uint8_to_base64 join_chunks from_char_codes
too_many = refl

uint8_to_base64-btoa_example :
    uint8_to_base64 65536 (λ s. some s) (1 ∷ 2 ∷ 3 ∷ []) ≡ some (1 ∷ 2 ∷ 3 ∷ [])
uint8_to_base64-btoa_example =
    uint8_to_base64-btoa 65536 (λ s. some s) (1 ∷ 2 ∷ 3 ∷ []) (omega arith)
