-- ===== src/Launch/Shards.antt =====
-- The shards that `run` creates, and the clients that ask for them.
use gateway_proxy.Prelude.{
  ℕ, zero, suc, ◌+◌, ◌-◌, ◌<◌, ◌≤◌, ◌≡◌, ◌≢◌, refl, sym, ◌∙◌, ap, some, List, [], ◌∷◌, map, arith,
  get_elem?, get_elem?-map, map-get_elem?, get_elem?-eq-none_iff,
}
use gateway_proxy.Text.{Text}
use gateway_proxy.Model.{Identify}
use gateway_proxy.State.{Shard, Inner}
use gateway_proxy.Server.Client.{Client, Env, panic, handle_identify}
use gateway_proxy.Server.Client.Cases.{Accepted}
use gateway_proxy.Server.Client.Shards.{Layout, handle_identify-panic_iff}
use gateway_proxy.Launch.{
  Config, shard_count_of, shard_start_of, shard_end_of, shard_ids, count_from, create_shard,
  create_shards, create_state,
}

get_elem?-count_from : (a n i : ℕ) → i < n → get_elem? (count_from a n) i ≡ some (a + i)
unfolding count_from
get_elem?-count_from a zero i h = absurd (omega (arith, h))
get_elem?-count_from a (suc n) zero h = ground arith
get_elem?-count_from a (suc n) (suc i) h =
    get_elem?-count_from (a + 1) n i (omega (arith, h)) ∙ ground arith

count_from_at : (a n i id : ℕ) → get_elem? (count_from a n) i ≡ some id → id ≡ a + i
unfolding count_from
count_from_at a zero i id h = absurd cc
count_from_at a (suc n) zero id h = ground arith
count_from_at a (suc n) (suc i) id h = omega (arith, count_from_at (a + 1) n i id h)

module _ {Cache : Type 0} (cache : Cache) (config : Config) (recommended : ℕ) where
  -- The IDs of the shards are those of the range.
  ids-create_shards :
      (ids : List ℕ) → map (λ s. s.id) (map (λ s. s.0) (map (create_shard cache config) ids)) ≡ ids
  unfolding create_shard
  ids-create_shards [] = refl
  ids-create_shards (i ∷ ids) = ap (λ rest. i ∷ rest) (ids-create_shards ids)

  pub ids-create_state :
      map (λ s. s.id) (create_state cache config recommended).shards
      ≡ shard_ids (shard_start_of config) (shard_end_of config recommended)
  unfolding create_state create_shards
  ids-create_state =
      ids-create_shards (shard_ids (shard_start_of config) (shard_end_of config recommended))

  -- Where the proxy runs all shards from 0 on, the shard at each index below their number has it as ID.
  pub create_state-shards :
      (shards : List (Shard Cache)) (i : ℕ)
      → shard_start_of config ≡ 0
      → shard_count_of config recommended ≤ shard_end_of config recommended
      → map (λ s. s.id) shards ≡ map (λ s. s.id) (create_state cache config recommended).shards
      → i < shard_count_of config recommended
      → (shard : Shard Cache) × (get_elem? shards i ≡ some shard) × (shard.id ≡ i)
  create_state-shards shards i from_zero all same inside =
      let below : i < shard_end_of config recommended - shard_start_of config =
        omega (arith, inside, all, from_zero) in
      let (shard, found, id) =
        get_elem?-map (λ s. s.id) shards i (shard_start_of config + i)
          (ap (λ ids. get_elem? ids i) (same ∙ ids-create_state)
            ∙ get_elem?-count_from (shard_start_of config) _ i below) in
      (shard, found, omega (arith, id, from_zero))

  -- Where the proxy runs all shards from 0 on, as it does by default, and the shards are still those
  -- that it has created, an IDENTIFY that passes all checks does not make it panic, and the shard at the
  -- index that the client asks for has the ID that it asks for.
  pub create_state-handle_identify :
      (env : Env) (sample : ℕ → ℕ) (state : Inner Cache) (c : Client) (payload : Text)
      (identify : Identify)
      → shard_start_of config ≡ 0
      → shard_count_of config recommended ≤ shard_end_of config recommended
      → map (λ s. s.id) state.shards
        ≡ map (λ s. s.id) (create_state cache config recommended).shards
      → state.shard_count ≡ (create_state cache config recommended).shard_count
      → Accepted env state payload identify
      → (shard : Shard Cache) × (get_elem? state.shards identify.d.shard.0 ≡ some shard)
        × (shard.id ≡ identify.d.shard.0)
        × (handle_identify env sample (state, c) payload ≢ panic)
  unfolding create_state
  create_state-handle_identify env sample state c payload identify from_zero all same count ok =
      let i = identify.d.shard.0 in
      let (shard, found, id) =
        create_state-shards state.shards i from_zero all same
          (omega (arith, ok.count_matches, ok.in_range, count)) in
      (
        shard,
        found,
        id,
        λ panics.
            let missing =
              (get_elem?-eq-none_iff state.shards i).1
                ((handle_identify-panic_iff env sample state c payload identify ok).0 panics) in
            absurd cc,
      )

  -- The shard IDs in the vector begin at `shard_start`.
  pub create_state-Layout :
      Layout (shard_start_of config) (create_state cache config recommended).shards
  create_state-Layout i s found = count_from_at (shard_start_of config) _ i s.id (
      sym (ap (λ ids. get_elem? ids i) ids-create_state)
      ∙ map-get_elem? (λ s. s.id) (create_state cache config recommended).shards i s found)
