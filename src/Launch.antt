-- ===== src/Launch.antt =====
-- `run` of src/main.rs: the creation of the shards, and the shutdown.
pub mod Shards
pub mod Shutdown
pub mod Running
use gateway_proxy.Prelude.{
  ℕ, zero, suc, ◌+◌, ◌-◌, ◌%◌, ◌^◌, Bool, true, false, Option, none, some, List, [], ◌∷◌, ◌++◌, map,
  if◌then◌else◌, length, ◌==◌,
}
use gateway_proxy.Text.{Text, codes, starts_with}
use gateway_proxy.Text.Number.{format}
use gateway_proxy.State.{Shard, Inner}
use gateway_proxy.Cache.Guilds as Guilds
use gateway_proxy.State.Readiness.{new}

-- The part of the configuration that is read here; of the activity only the name.
pub record Config : Type 0 where
  pub shards : Option ℕ
  pub shard_start : Option ℕ
  pub shard_end : Option ℕ
  pub activity : Option Text

abbrev pub unwrap_or : Option ℕ → ℕ → ℕ
unwrap_or none default = default
unwrap_or (some n) default = n

-- `Config.shards`, or what Discord recommends.
abbrev pub shard_count_of : Config → ℕ → ℕ
shard_count_of config recommended = unwrap_or config.shards recommended

abbrev pub shard_start_of : Config → ℕ
shard_start_of config = unwrap_or config.shard_start 0

abbrev pub shard_end_of : Config → ℕ → ℕ
shard_end_of config recommended = unwrap_or config.shard_end (shard_count_of config recommended)

-- The range `a..b`, by the number of its elements.
unfoldable pub count_from : ℕ → ℕ → List ℕ
count_from a zero = []
count_from a (suc n) = a ∷ count_from (a + 1) n

abbrev pub shard_ids : ℕ → ℕ → List ℕ
shard_ids a b = count_from a (b - a)

-- `str::replace` with a pattern that is not empty; `skip` is what is left of an occurrence.
unfoldable pub replace_at : ℕ → Text → Text → Text → Text
replace_at skip pattern with_text [] = []
replace_at (suc skip) pattern with_text (c ∷ s) = replace_at skip pattern with_text s
replace_at zero pattern with_text (c ∷ s) =
    let matched = replace_at (length pattern - 1) pattern with_text s in
    let rest = replace_at 0 pattern with_text s in
    if starts_with pattern (c ∷ s) then with_text ++ matched else c ∷ rest

abbrev pub placeholder : Text
placeholder = codes "{{shard}}"

-- The name of the activity that a shard shows.
unfoldable pub activity_name : Config → ℕ → Option Text
activity_name config shard_id = elim config.activity [
  | none ↦ none
  | some name ↦ some (replace_at 0 placeholder (format shard_id) name)
]

module _ {Cache : Type 0} (cache : Cache) where
  -- `cache` is a new cache. A shard is created with its presence, where `ShardId::new` and
  -- `broadcast::channel` do not panic: `Running.make_shards` has the loop with their panics.
  unfoldable pub create_shard : Config → ℕ → Shard Cache × Option Text
  create_shard config shard_id = (
    record { id = shard_id; sender = []; events = []; ready = new; guilds = Guilds.new cache },
    activity_name config shard_id,
  )

  unfoldable pub create_shards : Config → ℕ → List (Shard Cache × Option Text)
  create_shards config recommended =
      map (create_shard config)
        (shard_ids (shard_start_of config) (shard_end_of config recommended))

  -- The state that the tasks of the clients share.
  unfoldable pub create_state : Config → ℕ → Inner Cache
  create_state config recommended = record {
    shards = map (λ s. s.0) (create_shards config recommended);
    shard_count = shard_count_of config recommended;
    sessions = [];
  }

-- What waiting for a task, ten seconds at most, yields while there are tasks.
pub data Joined : Type 0 where
  shut_down elapsed : Joined

-- The loop over the tasks that are left: the numbers of those that shut down gracefully and of the
-- others, which are `usize`.
unfoldable pub join_all : ℕ → (ℕ → Joined) → ℕ → ℕ → ℕ × ℕ
join_all zero joined graceful ungraceful = (graceful, ungraceful)
join_all (suc tasks) joined graceful ungraceful = elim (joined 0) [
  | shut_down ↦
      join_all tasks (λ i. joined (suc i)) ((graceful + 1) % 2 ^ 64)
        ((ungraceful + 2 ^ 64 - 1) % 2 ^ 64)
  | elapsed ↦ (graceful, ungraceful)
]

-- From the number of dispatching tasks on.
unfoldable pub shutdown : ℕ → (ℕ → Joined) → ℕ × ℕ
shutdown tasks joined = join_all tasks joined 0 tasks
