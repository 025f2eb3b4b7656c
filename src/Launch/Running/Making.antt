-- ===== src/Launch/Running/Making.antt =====
-- The loop of `run` of src/main.rs that creates the shards, and its panics.
use gateway_proxy.Prelude.{
  ℕ, zero, suc, ◌+◌, none, some, ◌≤◌, ◌<◌, ◌≡◌, refl, List, ◌∷◌, ◌↔◌, true, false, Bool-cases, map,
  arith, inl, inr, ◌⊎◌, Option,
}
use mathlib.Core.Option
use gateway_proxy.Text.{Text}
use gateway_proxy.State.{Shard}
use gateway_proxy.Launch.{shard_count_of, count_from, create_shard}
use gateway_proxy.Launch.Running.{
  Config, Gateway, Env, finished, http_client, capacity_of, ids_of, make_shards, finish, run,
}

map-none : {A B : Type 0} (f : A → B) (o : Option A) → Option.map f o ≡ none → o ≡ none
map-none f none h = refl
map-none f (some x) h = absurd cc

module _ {LevelFilter Failure Cache : Type 0} (env : Env LevelFilter Failure) (cache : Cache) where
  -- What Twilight documents of `ShardId::new`: it panics unless the ID is below the number of shards.
  abbrev pub IsShardId : Type 0
  IsShardId = (id shards : ℕ) → (env.shard_id id shards ≡ true) ↔ (id < shards)

  module _ (documented : IsShardId) (config : Config) (gateway : Gateway) where
    abbrev count : ℕ
    count = shard_count_of config.sharding gateway.shards

    -- The loop is that of `create_shards` where nothing panics.
    pub make_shards-create_shard :
        (a n : ℕ)
        → (0 < n → a + n ≤ count)
        → env.channel config.backpressure ≡ true
        → make_shards env cache config gateway (count_from a n)
          ≡ some (map (create_shard cache config.sharding) (count_from a n))
    unfolding make_shards count_from
    make_shards-create_shard a zero below possible = refl
    make_shards-create_shard a (suc n) below possible =
        rw
          (
            (documented a count).1 (omega (arith, below (omega arith))),
            possible,
            make_shards-create_shard (a + 1) n (λ _. omega (arith, below (omega arith))) possible,
          )
          refl

    pub make_shards-eq-none_iff :
        (a n : ℕ)
        → (make_shards env cache config gateway (count_from a n) ≡ none)
          ↔ ((0 < n) × ((env.channel config.backpressure ≡ false) ⊎ (count < a + n)))
    unfolding make_shards count_from
    make_shards-eq-none_iff a zero = (λ h. absurd cc, λ h. absurd (omega (arith, h.0)))
    make_shards-eq-none_iff a (suc n) =
        let (to, back) = make_shards-eq-none_iff (a + 1) n in
        elim (Bool-cases (env.shard_id a count)) [
          | inr e ↦
              (λ _. (omega arith, inr (ground (arith, (documented a count).1, e))), λ _. rw e refl)
          | inl e ↦ elim (Bool-cases (env.channel config.backpressure)) [
            | inr full ↦ (λ _. (omega arith, inl full), λ _. rw (e, full) refl)
            | inl possible ↦ (
              λ h.
                  let h' = rw (e, possible) at h in
                  let (_, cause) = to (
                    map-none (λ shards. create_shard cache config.sharding a ∷ shards)
                      (make_shards env cache config gateway (count_from (a + 1) n)) h') in
                  (
                    omega arith,
                    elim cause [ inl full ↦ inl full | inr high ↦ inr (omega (arith, high)) ],
                  ),
              λ (_, cause). elim cause [
                | inl full ↦ absurd cc
                | inr high ↦
                    let here = (documented a count).0 e in
                    rw (e, possible, back (omega (arith, here, high), inr (omega (arith, high))))
                      refl
              ],
            )
          ]
        ]

    pub run-finished :
        (created : List (Shard Cache × Option Text))
        → env.gateway (http_client config) ≡ inr gateway
        → env.allocates (capacity_of config gateway) ≡ true
        → make_shards env cache config gateway (ids_of config gateway) ≡ some created
        → run env cache config ≡ finished (finish env cache config gateway created)
    unfolding run
    run-finished created answered allocated made = rw (answered, run) (rw (allocated, made) refl)
