-- ===== src/Launch/Running/Panics.antt =====
-- When `run` panics.
use gateway_proxy.Prelude.{◌<◌, ◌≡◌, false, ◌⊎◌}
use gateway_proxy.Launch.{shard_count_of, shard_start_of, shard_end_of}
use gateway_proxy.Launch.Running.{Config, Gateway, Env, capacity_of}
use gateway_proxy.Launch.Running.Making.{IsShardId}

module _ {LevelFilter Failure Cache : Type 0} (env : Env LevelFilter Failure) (cache : Cache) where
  module _ (documented : IsShardId env cache) where
    -- What stands against the creation of the shards.
    abbrev pub Hindered : Config → Gateway → Type 0
    Hindered config gateway =
        let start = shard_start_of config.sharding in
        let end = shard_end_of config.sharding gateway.shards in
        (env.allocates (capacity_of config gateway) ≡ false)
        ⊎ ((start < end)
            × ((env.channel config.backpressure ≡ false)
                ⊎ (shard_count_of config.sharding gateway.shards < end)))
