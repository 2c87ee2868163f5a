-- ===== src/Server/Limiter/Bypass.antt =====
-- Who can get around the limit.
use own_pastebin.Prelude.{
  ℕ, ◌≡◌, refl, arith, Bool, true, false, Option, none, List, [], ◌∷◌, ◌++◌, Text, text_eq, All,
}
use own_pastebin.Server.Limiter.{Rate, Sender, Entry, Entries, real_ip, admit}

-- A text does not stand in a list.
abbrev pub IsNew : Text → List Text → Type 0
IsNew s = All (λ t. text_eq s t ≡ false)

abbrev pub IsDistinct : List Text → Type 0
IsDistinct [] = Unit
IsDistinct (s ∷ ss) = IsNew s ss × IsDistinct ss

text_eq_swap : (s t : Text) → text_eq s t ≡ false → text_eq t s ≡ false
text_eq_swap [] [] h = h
text_eq_swap [] (d ∷ t) h = refl
text_eq_swap (c ∷ s) [] h = refl
text_eq_swap (c ∷ s) (d ∷ t) h = ground (arith, text_eq_swap s t)

module _ (r : Rate) (trusted : Option (Text → Bool)) where
  -- The answers to requests at their times, which all go to `admit` by `realIP`.
  abbrev pub verdicts : List (ℕ × Sender) → Entries r → List Bool
  verdicts [] entries = []
  verdicts ((t, s) ∷ ss) entries =
      (admit r t (real_ip trusted s) entries).0
      ∷ verdicts ss (admit r t (real_ip trusted s) entries).1

  abbrev pub ips : List (ℕ × Sender) → List Text
  ips [] = []
  ips ((t, s) ∷ ss) = real_ip trusted s ∷ ips ss

  abbrev IsUnseen : Entries r → List Text → Type 0
  IsUnseen entries = All (λ k. entries k ≡ none)

  admit-IsUnseen :
      (t : ℕ) (ip : Text) (ks : List Text) (entries : Entries r)
      → IsNew ip ks
      → IsUnseen entries ks
      → IsUnseen (admit r t ip entries).1 ks
  unfolding admit
  admit-IsUnseen t ip [] entries h v = tt
  admit-IsUnseen t ip (k ∷ ks) entries (h, hs) (v, vs) =
      (rw (text_eq_swap ip k h) v, admit-IsUnseen t ip ks entries hs vs)

  all_admitted :
      (ss : List (ℕ × Sender)) (entries : Entries r)
      → ((t : ℕ) → (r.allow t r.fresh).0 ≡ true)
      → IsDistinct (ips ss)
      → IsUnseen entries (ips ss)
      → All (λ ok. ok ≡ true) (verdicts ss entries)
  unfolding admit
  all_admitted [] entries h d v = tt
  all_admitted ((t, s) ∷ ss) entries h (new, d) (unseen, v) = (
    rw unseen (h t),
    all_admitted ss (admit r t (real_ip trusted s) entries).1 h d
        (admit-IsUnseen t (real_ip trusted s) (ips ss) entries new v),
  )

-- The address of a peer, `host:port`.
abbrev pub peer : Text → Text → Text
peer host port = host ++ b':' ∷ port

abbrev pub from_ports : Text → List (ℕ × Text) → List (ℕ × Sender)
from_ports host [] = []
from_ports host ((t, port) ∷ ps) =
    (t, record { remote = peer host port; forwarded = [] }) ∷ from_ports host ps

abbrev pub ports : List (ℕ × Text) → List Text
ports [] = []
ports ((t, port) ∷ ps) = port ∷ ports ps

peer-other : (host s t : Text) → text_eq s t ≡ false → text_eq (peer host s) (peer host t) ≡ false
peer-other [] s t h = ground (arith, h)
peer-other (c ∷ host) s t h = ground (arith, peer-other host s t h)

from_ports-IsNew :
    (host s : Text) (ps : List (ℕ × Text))
    → IsNew s (ports ps)
    → (r : Rate) → IsNew (peer host s) (ips r none (from_ports host ps))
unfolding real_ip
from_ports-IsNew host s [] h r = tt
from_ports-IsNew host s ((t, port) ∷ ps) (h, hs) r =
    (peer-other host s port h, from_ports-IsNew host s ps hs r)

from_ports-IsDistinct :
    (host : Text) (ps : List (ℕ × Text))
    → IsDistinct (ports ps)
    → (r : Rate) → IsDistinct (ips r none (from_ports host ps))
unfolding real_ip
from_ports-IsDistinct host [] h r = tt
from_ports-IsDistinct host ((t, port) ∷ ps) (h, hs) r =
    (from_ports-IsNew host port ps h r, from_ports-IsDistinct host ps hs r)

nothing_seen : (r : Rate) (ks : List Text) → All (λ k. ◌≡◌ {A = Option (Entry r)} none none) ks
nothing_seen r [] = tt
nothing_seen r (k ∷ ks) = (refl, nothing_seen r ks)

-- Without a trusted proxy one host is not limited if it sends each request from another port, which
-- it does by a new connection for each: all its requests are admitted, however many there are and at
-- whatever times. (A full bucket admits a request.)
pub ports_unlimited :
    (r : Rate) (host : Text) (ps : List (ℕ × Text))
    → ((t : ℕ) → (r.allow t r.fresh).0 ≡ true)
    → IsDistinct (ports ps)
    → All (λ ok. ok ≡ true) (verdicts r none (from_ports host ps) (λ k. none))
ports_unlimited r host ps h d =
    all_admitted r none (from_ports host ps) (λ k. none) h (from_ports-IsDistinct host ps d r)
      (nothing_seen r (ips r none (from_ports host ps)))
