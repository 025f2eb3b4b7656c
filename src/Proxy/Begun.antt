-- ===== src/Proxy/Begun.antt =====
-- The shards as `main` of src/main.rs creates them, before Discord has sent anything.
use gateway_proxy.Prelude.{ℕ, List, [], ◌∷◌, map, All}
use gateway_proxy.Cache.Records.{InMemoryCache}
use gateway_proxy.State.Readiness.{new}
use gateway_proxy.Dispatch as Dispatch
use gateway_proxy.Server.Client as Client
use gateway_proxy.Server.Forward.{Env}
use gateway_proxy.Connection.Feeding.{IsFed}
use gateway_proxy.Launch.{
  Config, shard_start_of, shard_end_of, shard_ids, create_shard, create_shards, create_state,
}

module _ {Event' : Type 0} (client_env : Client.Env) (env : Env)
    (dispatch_env : Dispatch.Env InMemoryCache Event') (capacity : ℕ) (cache : InMemoryCache)
    (config : Config) where
  create_shards-IsFed :
      (ids : List ℕ)
      → All
          (IsFed client_env env dispatch_env capacity)
          (map (λ s. s.0) (map (create_shard cache config) ids))
  unfolding create_shard new
  create_shards-IsFed [] = tt
  create_shards-IsFed (i ∷ ids) =
      (record { relayable = tt; stored = λ d e. absurd cc }, create_shards-IsFed ids)

  pub create_state-IsFed :
      (recommended : ℕ)
      → All
          (IsFed client_env env dispatch_env capacity)
          (create_state cache config recommended).shards
  unfolding create_state create_shards
  create_state-IsFed recommended =
      create_shards-IsFed (shard_ids (shard_start_of config) (shard_end_of config recommended))
