-- ===== src/Server/Contract/Fetch.antt =====
-- What `fetchPaste` does on each backend that keeps its promise.
use own_pastebin.Prelude.{
  ℕ, ◌≤◌, Bool, false, ◌&&◌, Option, none, some, [], ◌≡◌, refl, ◌∙◌, ap, arith, inl, inr,
  Bool-cases, if◌then◌else◌, Text, text_eq,
}
use own_pastebin.Server.Store.{Paste, without_content}
use own_pastebin.Server.Contract.{Backend, IsStorage, after_peek, fetch}

abbrev pub burns : Option Paste → Bool
burns none = false
burns (some p) = p.burn

module _ {S : Type 0} (b : Backend S) (IsValid : S → Type 0) (view : ℕ → Text → S → Option Paste)
    (h : IsStorage b IsValid view) (now later : ℕ) (key k : Text) (le : now ≤ later) where
  -- What is returned and left behind, for a paste that is there.
  abbrev pub IsFetched : Option Paste → S → Option Paste × S → Type 0
  IsFetched x s result =
      (result.0 ≡ x)
      × (view later k result.1 ≡ (if text_eq key k && burns x then none else view later k s))

  get-pair : (s : S) → IsValid s → b.get now key s ≡ (view now key s, (b.get now key s).1)
  get-pair s v = ap (λ (x : Option Paste). (x, (b.get now key s).1)) (h.get_read now key s v)

  known-IsFetched :
      (s : S) (meta p : Paste)
      → IsValid s
      → view now key s ≡ some p
      → meta.burn ≡ p.burn
      → IsFetched (some p) s (after_peek b now key (some meta, s))
  known-IsFetched s meta p v e m = elim (Bool-cases p.burn) [
    | inl y ↦
        simp (m, y)
          (h.take_read now key s v ∙ e, rw (h.take_gone now later key k s v le) (ground arith))
    | inr n ↦
        simp (m, n)
          (h.get_read now key s v ∙ e, rw (h.get_kept now later key k s v le) (ground arith))
  ]

  unknown-IsFetched :
      (s : S)
      → IsValid s
      → view now key s ≡ none
      → IsFetched none s (after_peek b now key (none, s))
  unknown-IsFetched s v e =
      rw (get-pair s v) (rw e (refl, rw (h.get_kept now later key k s v le) (ground arith)))

  found-IsFetched :
      (x : Option Paste) (s s' : S)
      → IsValid s'
      → ((t : ℕ) → now ≤ t → (j : Text) → view t j s' ≡ view t j s)
      → view now key s ≡ x
      → IsFetched x s (after_peek b now key (without_content x, s'))
  found-IsFetched none s s' v same e =
      let (read, left) = unknown-IsFetched s' v (same now (omega arith) key ∙ e) in
      (read, rw left (rw (same later le k)))
  found-IsFetched (some p) s s' v same e =
      let (read, left) =
        known-IsFetched s' (record p { content = [] }) p v (same now (omega arith) key ∙ e) refl in
      (read, rw left (rw (same later le k)))

  -- On a backend that keeps the promise of the interface, `fetchPaste` returns the paste that is
  -- there, and afterwards, at each later time, this paste is gone if it burns, and each other one is
  -- still there.
  pub fetch-burns :
      (s : S)
      → IsValid s
      → ((fetch b now key s).0 ≡ view now key s)
        × (view later k (fetch b now key s).1
            ≡ (if text_eq key k && burns (view now key s) then none else view later k s))
  unfolding fetch
  fetch-burns s v =
      let pair : b.peek_meta now key s
          ≡ (without_content (view now key s), (b.peek_meta now key s).1) =
        ap (λ (x : Option Paste). (x, (b.peek_meta now key s).1)) (h.peek_read now key s v) in
      rw pair (
        found-IsFetched (view now key s) s (b.peek_meta now key s).1 (h.peek_valid now key s v)
          (λ t le' j. h.peek_kept now t key j s v le') refl)
