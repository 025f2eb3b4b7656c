-- ===== src/Launch/Shutdown.antt =====
-- The counts at the end of the shutdown.
use gateway_proxy.Prelude.{
  ℕ, zero, suc, ◌+◌, ◌-◌, ◌%◌, ◌^◌, ◌<◌, ◌≤◌, ◌≡◌, refl, ◌∙◌, arith, ◌⊎◌, inl, inr,
}
use gateway_proxy.Launch.{Joined, shut_down, elapsed, join_all, shutdown}

-- The first `n` of the tasks shut down in time.
abbrev pub InTime : (ℕ → Joined) → ℕ → Type 0
InTime joined n = (i : ℕ) → i < n → joined i ≡ shut_down

joined-cases : (j : Joined) → (j ≡ shut_down) ⊎ (j ≡ elapsed)
joined-cases shut_down = inl refl
joined-cases elapsed = inr refl

InTime-suc :
    (joined : ℕ → Joined) (n : ℕ)
    → joined 0 ≡ shut_down
    → InTime (λ i. joined (suc i)) n
    → InTime joined (suc n)
InTime-suc joined n e rest zero below = e
InTime-suc joined n e rest (suc i) below = rest i (omega (arith, below))

add-wraps : (graceful : ℕ) → graceful + 1 < 2 ^ 64 → (graceful + 1) % 2 ^ 64 ≡ graceful + 1
add-wraps graceful h = omega (arith, h)

sub-wraps : (tasks : ℕ) → tasks + 1 < 2 ^ 64 → (suc tasks + 2 ^ 64 - 1) % 2 ^ 64 ≡ tasks
sub-wraps tasks h = omega (arith, h)

join_all_lem :
    (tasks : ℕ) (joined : ℕ → Joined) (graceful : ℕ)
    → graceful + tasks < 2 ^ 64
    → (n : ℕ) × (n ≤ tasks)
      × (join_all tasks joined graceful tasks ≡ (graceful + n, tasks - n))
      × InTime joined n
      × ((n ≡ tasks) ⊎ (joined n ≡ elapsed))
unfolding join_all
join_all_lem zero joined graceful h =
    (0, omega arith, ground arith, λ i below. absurd (omega (arith, below)), inl refl)
join_all_lem (suc tasks) joined graceful h = elim (joined-cases (joined 0)) [
  | inr e ↦ (
    0,
    omega arith,
    rw (e, join_all) (ground arith),
    λ i below. absurd (omega (arith, below)),
    inr e,
  )
  | inl e ↦
      let (n, bound, result, in_time, stops) =
        join_all_lem tasks (λ i. joined (suc i)) (graceful + 1) (omega (arith, h)) in
      (
        suc n,
        omega (arith, bound),
        rw (e, join_all)
            (rw (add-wraps graceful (omega (arith, h)), sub-wraps tasks (omega (arith, h)))
              (result ∙ ground arith)),
        InTime-suc joined n e in_time,
        elim stops [ inl all ↦ inl (omega (arith, all)) | inr late ↦ inr late ],
      )
]

-- The shutdown counts as graceful the tasks that end before one lets ten seconds pass, and all others
-- as not graceful; the counters do not overflow.
pub shutdown_lem :
    (tasks : ℕ) (joined : ℕ → Joined)
    → tasks < 2 ^ 64
    → (n : ℕ) × (n ≤ tasks)
      × (shutdown tasks joined ≡ (n, tasks - n))
      × InTime joined n
      × ((n ≡ tasks) ⊎ (joined n ≡ elapsed))
unfolding shutdown
shutdown_lem tasks joined h =
    let (n, bound, result, in_time, stops) = join_all_lem tasks joined 0 (omega (arith, h)) in
    (n, bound, result ∙ ground arith, in_time, stops)
