-- ===== src/Server/Limiter/Laws.antt =====
-- Each address has its own bucket, and the cleanup is not noticed.
use own_pastebin.Prelude.{
  ℕ, ◌+◌, ◌≤◌, ◌<◌, ◌≡◌, ◌⊎◌, inl, inr, refl, sym, ap, arith, Bool, Bool-cases, Option, none, some,
  List, [], ◌∷◌, if◌then◌else◌, ltb, Text, text_eq,
}
use own_pastebin.Server.Limiter.{Rate, Entry, Entries, bucket_of, evict, admit, sweep}

pub data Event : Type 0 where
  asks : Text → Event
  sweeps : Event

-- The events of a history do not go back in time.
abbrev pub IsOrdered : ℕ → List (ℕ × Event) → Type 0
IsOrdered now [] = Unit
IsOrdered now ((t, e) ∷ es) = (now ≤ t) × IsOrdered t es

module _ (r : Rate) (ttl : ℕ) where
  -- The answers to the requests of a history.
  abbrev pub answers : List (ℕ × Event) → Entries r → List Bool
  answers [] entries = []
  answers ((t, asks ip) ∷ es) entries =
      (admit r t ip entries).0 ∷ answers es (admit r t ip entries).1
  answers ((t, sweeps) ∷ es) entries = answers es (sweep r ttl t entries)

  -- One bucket for each address, for ever.
  abbrev pub Buckets : Type 0
  Buckets = Text → r.Limiter

  abbrev pub asked : ℕ → Text → Buckets → Buckets
  asked t ip b = λ k. if text_eq k ip then (r.allow t (b ip)).1 else b k

  abbrev pub own_answers : List (ℕ × Event) → Buckets → List Bool
  own_answers [] b = []
  own_answers ((t, asks ip) ∷ es) b = (r.allow t (b ip)).0 ∷ own_answers es (asked t ip b)
  own_answers ((t, sweeps) ∷ es) b = own_answers es b

  -- An entry holds the bucket, which was last asked at the entry's time; where there is none, the
  -- bucket was never asked, or not for longer than the time to live.
  abbrev Agrees : ℕ → Option (Entry r) → r.Limiter → Type 0
  Agrees now none b =
      (b ≡ r.fresh) ⊎ ((t : ℕ) × (l : r.Limiter) × (b ≡ (r.allow t l).1) × (t + ttl < now))
  Agrees now (some e) b =
      (e.lim ≡ b) × ((l : r.Limiter) × (b ≡ (r.allow e.last_seen l).1)) × (e.last_seen ≤ now)

  later-Agrees :
      (now u : ℕ) (o : Option (Entry r)) (b : r.Limiter) → now ≤ u → Agrees now o b → Agrees u o b
  later-Agrees now u none b h (inl e) = inl e
  later-Agrees now u none b h (inr (t, l, e, old)) = inr (t, l, e, omega arith)
  later-Agrees now u (some e) b h (same, last, old) = (same, last, omega arith)

  evict-Agrees :
      (now : ℕ) (o : Option (Entry r)) (b : r.Limiter)
      → Agrees now o b
      → Agrees now (evict r ttl now o) b
  evict-Agrees now none b v = v
  evict-Agrees now (some e) b (same, (l, last), old) =
      elim (Bool-cases (ltb (e.last_seen + ttl) now)) [
        | inl h ↦ rw h (inr (e.last_seen, l, last, ground arith))
        | inr h ↦ rw h (same, (l, last), old)
      ]

  allow-Agrees :
      (now : ℕ) (o : Option (Entry r)) (b : r.Limiter)
      → r.refill ≤ ttl
      → Agrees now o b
      → r.allow now (bucket_of r o) ≡ r.allow now b
  allow-Agrees now none b h (inl e) = rw e refl
  allow-Agrees now none b h (inr (t, l, e, old)) = rw e (sym (r.full_again t now l (omega arith)))
  allow-Agrees now (some e) b h (same, last, old) = ap (r.allow now) same

  abbrev AllAgree : ℕ → Entries r → Buckets → Type 0
  AllAgree now entries b = (k : Text) → Agrees now (entries k) (b k)

  admit-AllAgree :
      (now : ℕ) (ip : Text) (entries : Entries r) (b : Buckets)
      → r.refill ≤ ttl
      → AllAgree now entries b
      → AllAgree now (admit r now ip entries).1 (asked now ip b)
  unfolding admit
  admit-AllAgree now ip entries b h v k = elim (Bool-cases (text_eq k ip)) [
    | inl e ↦
        simp e
          (ap (λ x. x.1) (allow-Agrees now (entries ip) (b ip) h (v ip)), (b ip, refl), omega arith)
    | inr e ↦ simp e (v k)
  ]

  answers_same :
      (now : ℕ) (es : List (ℕ × Event)) (entries : Entries r) (b : Buckets)
      → r.refill ≤ ttl
      → IsOrdered now es
      → AllAgree now entries b
      → answers es entries ≡ own_answers es b
  unfolding admit sweep
  answers_same now [] entries b h o v = refl
  answers_same now ((t, asks ip) ∷ es) entries b h (le, o) v =
      let agree = λ (k : Text). later-Agrees now t (entries k) (b k) le (v k) in
      let same = allow-Agrees t (entries ip) (b ip) h (agree ip) in
      let rest =
        answers_same t es (admit r t ip entries).1 (asked t ip b) h o
          (admit-AllAgree t ip entries b h agree) in
      (λ i. (same i).0 ∷ rest i)
  answers_same now ((t, sweeps) ∷ es) entries b h (le, o) v =
      answers_same t es (sweep r ttl t entries) b h o
        (λ k. evict-Agrees t (entries k) (b k) (later-Agrees now t (entries k) (b k) le (v k)))

  -- In every history of requests and cleanups, each request gets the answer that it would get if
  -- each address had a bucket of its own for ever: the requests of other addresses and the cleanup
  -- make no difference. (The time to live is not shorter than the time in which a bucket gets full.)
  pub own_buckets :
      (es : List (ℕ × Event))
      → r.refill ≤ ttl
      → IsOrdered 0 es
      → answers es (λ k. none) ≡ own_answers es (λ k. r.fresh)
  own_buckets es h o = answers_same 0 es (λ k. none) (λ k. r.fresh) h o (λ k. inl refl)
