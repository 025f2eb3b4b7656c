-- ===== src/Launch/Running.antt =====
-- `run` and `main` of src/main.rs from the first line to the last.
pub mod Making
pub mod Ends
pub mod Panics
use gateway_proxy.Prelude.{
  ℕ, ◌+◌, ◌-◌, ◌%◌, ◌^◌, Bool, not, true, false, Option, none, some, List, [], ◌∷◌, ◌++◌, ◌⊎◌, inl,
  inr, map, length, if◌then◌else◌,
}
use mathlib.Core.Option
use gateway_proxy.Text.{Text, codes}
use gateway_proxy.State.{Inner, Shard}
use gateway_proxy.Launch as Launch
use gateway_proxy.Launch.{
  Joined, shard_count_of, shard_start_of, shard_end_of, shard_ids, create_shard, shutdown,
}

-- The part of the configuration that is read here.
pub record Config : Type 0 where
  pub sharding : Launch.Config
  pub log_level : Text
  pub token : Text
  pub twilight_http_proxy : Option Text
  pub backpressure : ℕ

-- Twilight's client, its proxy with the choice of plain HTTP, the answer of Discord, and the queue.
pub record HttpClient : Type 0 where
  pub token : Text
  pub proxy : Option (Text × Bool)

pub record SessionStartLimit : Type 0 where
  pub max_concurrency : ℕ
  pub remaining : ℕ
  pub reset_after : ℕ
  pub total : ℕ

pub record Gateway : Type 0 where
  pub shards : ℕ
  pub session_start_limit : SessionStartLimit

pub record Queue : Type 0 where
  pub max_concurrency : ℕ
  pub remaining : ℕ
  pub reset_after : ℕ
  pub total : ℕ

-- What the process does that the outside sees, oldest first: a shard is started with its presence, the
-- server begins to listen, and a shard is sent a close frame. `flag` is the store to `SHUTDOWN`.
pub data Action : Type 0 where
  spawn_dispatch : ℕ → Option Text → Action
  spawn_server flag : Action
  send_close : ℕ → Action

-- The libraries: the name of a level, the answer of Discord to the request for the gateway, whether there
-- is memory for so many pointers, whether `ShardId::new` takes a shard ID out of so many, whether a
-- broadcast channel can have a capacity, and how long the tasks take to shut down; before the shutdown
-- a signal has arrived.
pub record Env (LevelFilter Failure : Type 0) : Type 0 where
  pub level_from_str : Text → Option LevelFilter
  pub info : LevelFilter
  pub gateway : HttpClient → Failure ⊎ Gateway
  pub allocates : ℕ → Bool
  pub shard_id : ℕ → ℕ → Bool
  pub channel : ℕ → Bool
  pub joined : ℕ → Joined
  pub display : Failure → Text

-- The level filter at first, the queue of the shards, the state that the clients share, what was done,
-- and how many shards shut down gracefully and not gracefully.
pub record Finished (LevelFilter Cache : Type 0) : Type 0 where
  pub level : LevelFilter
  pub queue : Queue
  pub state : Inner Cache
  pub actions : List Action
  pub graceful : ℕ
  pub ungraceful : ℕ

pub data Exit (LevelFilter Failure Cache : Type 0) : Type 0 where
  fatal : Failure → Exit LevelFilter Failure Cache
  panicked : Exit LevelFilter Failure Cache
  finished : Finished LevelFilter Cache → Exit LevelFilter Failure Cache

unfoldable pub http_client : Config → HttpClient
http_client config = record {
  token = config.token;
  proxy = elim config.twilight_http_proxy [
    | none ↦ none
    | some http_proxy ↦ some (http_proxy, true)
  ];
}

abbrev pub queue_of : SessionStartLimit → Queue
queue_of session = record {
  max_concurrency = session.max_concurrency;
  remaining = session.remaining;
  reset_after = session.reset_after;
  total = session.total;
}

-- The shards that are run.
abbrev pub ids_of : Config → Gateway → List ℕ
ids_of config gateway =
    shard_ids (shard_start_of config.sharding) (shard_end_of config.sharding gateway.shards)

-- `(shard_end - shard_start) as usize`, the capacity of the vector of the shards; `u32` wraps around.
abbrev pub capacity_of : Config → Gateway → ℕ
capacity_of config gateway =
    (shard_end_of config.sharding gateway.shards + 2 ^ 32 - shard_start_of config.sharding) % 2 ^ 32

module _ {LevelFilter Failure : Type 0} (env : Env LevelFilter Failure) where
  unfoldable pub level_filter : Text → LevelFilter
  level_filter log_level = elim (env.level_from_str log_level) [
    | none ↦ env.info
    | some level ↦ level
  ]

  module _ {Cache : Type 0} (cache : Cache) where
    -- The loop that creates the shards, the last of which is the one before `shard_end`; `none` is a panic
    -- of `ShardId::new` or of `broadcast::channel`.
    unfoldable pub make_shards :
        Config → Gateway → List ℕ → Option (List (Shard Cache × Option Text))
    make_shards config gateway [] = some []
    make_shards config gateway (id ∷ ids) =
        let rest = make_shards config gateway ids in
        if not (env.shard_id id (shard_count_of config.sharding gateway.shards))
        then none
        else if not (env.channel config.backpressure)
        then none
        else Option.map (λ shards. create_shard cache config.sharding id ∷ shards) rest

    -- All that comes before the wait for the tasks, with the shards as they were created.
    unfoldable pub actions : List (Shard Cache × Option Text) → List Action
    actions created =
        map (λ s. spawn_dispatch s.0.id s.1) created
        ++ (spawn_server ∷ flag ∷ map (λ s. send_close s.0.id) created)

    unfoldable pub finish :
        Config → Gateway → List (Shard Cache × Option Text) → Finished LevelFilter Cache
    finish config gateway created =
        let (graceful, ungraceful) = shutdown (length created) env.joined in
        record {
          level = level_filter config.log_level;
          queue = queue_of gateway.session_start_limit;
          state = record {
            shards = map (λ s. s.0) created;
            shard_count = shard_count_of config.sharding gateway.shards;
            sessions = [];
          };
          actions = actions created;
          graceful = graceful;
          ungraceful = ungraceful;
        }

    -- `panicked` is also the abort of an allocation that fails.
    unfoldable pub run : Config → Exit LevelFilter Failure Cache
    run config = elim (env.gateway (http_client config)) [
      | inl e ↦ fatal e
      | inr gateway ↦
          if not (env.allocates (capacity_of config gateway))
          then panicked
          else elim (make_shards config gateway (ids_of config gateway)) [
            | none ↦ panicked
            | some created ↦ finished (finish config gateway created)
          ]
    ]

    -- What `main` prints.
    unfoldable pub main : Config → Option Text
    main config = elim (run config) [
      | fatal e ↦ some (codes "Fatal error: " ++ env.display e)
      | panicked ↦ none
      | finished _ ↦ none
    ]
