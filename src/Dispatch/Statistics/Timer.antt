-- ===== src/Dispatch/Statistics/Timer.antt =====
-- How often the metrics are updated.
use gateway_proxy.Prelude.{
  ℕ, ◌+◌, ◌-◌, ◌*◌, ◌<◌, ◌≤◌, ◌≡◌, refl, List, [], ◌∷◌, ◌++◌, arith, ltb, tests, if-elim, length,
}
use gateway_proxy.Dispatch.{Env, Task, Round, next, return, panic, round}
use gateway_proxy.Dispatch.Rounds.{Holds, Holds-map}
use gateway_proxy.Dispatch.Statistics.{
  Stats, Sample, Turn, Timed, ten_seconds, update_metrics, timed_round, timed_events,
}

abbrev round_map : {A B : Type 0} → (A → B) → Round A → Round B
round_map f (next a) = next (f a)
round_map f (return a) = return (f a)
round_map f panic = panic

-- Each update is more than ten seconds after the one before it, the first after `last`.
abbrev pub Spaced : ℕ → List (ℕ × List Sample) → Type 0
Spaced last [] = Unit {0}
Spaced last ((now, samples) ∷ recorded) = (last + ten_seconds < now) × Spaced now recorded

-- The time of the last update, or `last`.
abbrev pub last_update : ℕ → List (ℕ × List Sample) → ℕ
last_update last [] = last
last_update last ((now, samples) ∷ recorded) = last_update now recorded

Spaced-append :
    (last : ℕ) (recorded : List (ℕ × List Sample)) (now : ℕ) (samples : List Sample)
    → Spaced last recorded
    → last_update last recorded + ten_seconds < now
    → Spaced last (recorded ++ ((now, samples) ∷ []))
      × (last_update last (recorded ++ ((now, samples) ∷ [])) ≡ now)
Spaced-append last [] now samples h later = ((later, tt), refl)
Spaced-append last ((now', samples') ∷ recorded) now samples h later =
    let (spaced, at) = Spaced-append now' recorded now samples h.1 later in ((h.0, spaced), at)

Spaced-length :
    (last : ℕ) (recorded : List (ℕ × List Sample))
    → Spaced last recorded
    → last + length recorded * ten_seconds ≤ last_update last recorded
Spaced-length last [] h = omega arith
Spaced-length last ((now, samples) ∷ recorded) h =
    omega (arith, h.0, Spaced-length now recorded h.1)

module _ {Cache Event : Type 0} (env : Env Cache Event) (stats : Cache → Stats) (shard_id : ℕ) where
  abbrev Inv : ℕ → Timed Cache → Type 0
  Inv begin t = Spaced begin t.recorded × (last_update begin t.recorded ≡ t.last_metrics_update)

  update_metrics-Inv :
      (begin : ℕ) (t : Timed Cache) (turn : Turn)
      → Inv begin t
      → Inv begin (update_metrics env stats shard_id t turn)
  unfolding update_metrics
  update_metrics-Inv begin t turn h =
      if-elim (Inv begin) (ltb ten_seconds (turn.now - t.last_metrics_update))
        (λ late. Spaced-append begin t.recorded turn.now _ h.0 (omega (tests, h.1))) (λ _. h)

  timed_events-Inv :
      (begin : ℕ) (t : Timed Cache) (turns : List Turn)
      → Inv begin t
      → Holds (Inv begin) (timed_events env stats shard_id t turns)
  unfolding timed_events timed_round
  timed_events-Inv begin t [] h = h
  timed_events-Inv begin t (turn ∷ turns) h = go (round env t.task turn.message) (λ task.
      timed_events-Inv begin (record (update_metrics env stats shard_id t turn) { task = task })
        turns (update_metrics-Inv begin t turn h))
    where
      go :
          (r : Round (Task Cache))
          → ((task : Task Cache)
              → Holds (Inv begin) (
                  timed_events env stats shard_id
                    (record (update_metrics env stats shard_id t turn) { task = task })
                    turns))
          → Holds
              (Inv begin)
              (elim (round_map
                (λ task. record (update_metrics env stats shard_id t turn) { task = task })
                r) [
                  | next t' ↦ timed_events env stats shard_id t' turns
                  | return t' ↦ return t'
                  | panic ↦ panic
                ])
      go (next task) rest = rest task
      go (return task) rest = update_metrics-Inv begin t turn h
      go panic rest = tt

  -- Where nothing is recorded at first, and unless the task panics, two updates of the metrics are more
  -- than ten seconds apart, so that over any time there are at most as many as ten seconds fit into it.
  pub timed_events-Spaced :
      (t : Timed Cache) (turns : List Turn)
      → t.recorded ≡ []
      → Holds
          (λ t'.
            Spaced t.last_metrics_update t'.recorded
            × (t.last_metrics_update + length t'.recorded * ten_seconds ≤ t'.last_metrics_update))
          (timed_events env stats shard_id t turns)
  timed_events-Spaced t turns empty =
      Holds-map
        (λ t' h.
          let few = Spaced-length t.last_metrics_update t'.recorded h.0 in
          (h.0, omega (arith, few, h.1)))
        (timed_events env stats shard_id t turns)
        (timed_events-Inv t.last_metrics_update t turns (rw empty (tt, refl)))
