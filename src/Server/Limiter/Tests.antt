-- ===== src/Server/Limiter/Tests.antt =====
-- The limit at an input: a bucket of two requests that is full again after ten units of time.
use own_pastebin.Prelude.{◌≡◌, refl, arith, true, false, none, some, [], ◌∷◌, ◌++◌, codes, All}
use own_pastebin.Server.Limiter.Idle.{run, idle-evicted}
use own_pastebin.Server.Limiter.Toy.{two, ask_first}
use own_pastebin.Server.Limiter.{real_ip}
use own_pastebin.Server.Limiter.Laws.{asks, sweeps, answers, own_buckets}
use own_pastebin.Server.Limiter.Bypass.{ports_unlimited, verdicts, from_ports}

own_buckets_example :
    answers two 20
      ((1, asks (codes "a"))
        ∷ (2, asks (codes "a"))
        ∷ (3, asks (codes "b"))
        ∷ (4, asks (codes "a"))
        ∷ (30, sweeps)
        ∷ (31, asks (codes "a"))
        ∷ [])
      (λ k. none)
    ≡ true ∷ true ∷ true ∷ false ∷ true ∷ []
own_buckets_example =
    own_buckets two 20
      ((1, asks (codes "a"))
        ∷ (2, asks (codes "a"))
        ∷ (3, asks (codes "b"))
        ∷ (4, asks (codes "a"))
        ∷ (30, sweeps)
        ∷ (31, asks (codes "a"))
        ∷ [])
      (omega arith) (omega arith)

ports_unlimited_example :
    All
      (λ ok. ok ≡ true)
      (verdicts two none
        (from_ports
          (codes "1.2.3.4")
          ((1, codes "1001") ∷ (1, codes "1002") ∷ (1, codes "1003") ∷ []))
        (λ k. none))
ports_unlimited_example =
    ports_unlimited two (codes "1.2.3.4")
      ((1, codes "1001") ∷ (1, codes "1002") ∷ (1, codes "1003") ∷ []) (λ t. ask_first t)
      ((refl, (refl, tt)), ((refl, tt), (tt, tt)))

behind_proxy :
    real_ip
      (some (λ remote. true))
      (record { remote = codes "10.0.0.1:80"; forwarded = codes " 1.2.3.4 , 5.6.7.8" })
    ≡ codes "1.2.3.4"
unfolding real_ip own_pastebin.Server.Strings.is_go_space
behind_proxy = refl

idle-evicted_example :
    run two 20
      (((1, asks (codes "a")) ∷ [])
        ++ (((2, asks (codes "b")) ∷ []) ++ (40, sweeps) ∷ (41, asks (codes "b")) ∷ []))
      (λ j. none)
      (codes "a")
    ≡ none
idle-evicted_example =
    idle-evicted two 20 1 40 (codes "a") ((1, asks (codes "a")) ∷ []) ((2, asks (codes "b")) ∷ [])
      ((41, asks (codes "b")) ∷ []) (omega arith) (refl, tt) (omega arith) (refl, tt)
