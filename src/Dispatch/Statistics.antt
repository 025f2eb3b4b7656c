-- ===== src/Dispatch/Statistics.antt =====
-- `update_shard_statistics` of src/dispatch.rs, and the timer for it in the loop of `events`.
pub mod Timer
use gateway_proxy.Prelude.{
  ℕ, ◌-◌, ◌*◌, Bool, Option, none, some, List, [], ◌∷◌, ◌++◌, ltb, if◌then◌else◌,
}
use gateway_proxy.Text.{Text, codes}
use gateway_proxy.Text.Number.{format}
use gateway_proxy.Cache.Guilds as Guilds
use gateway_proxy.Dispatch.{Incoming, Env, Task, Round, next, return, panic, round}

-- Twilight's states of a connection; what two of them carry is not read.
pub data ConnectionState : Type 0 where
  active disconnected identifying resuming fatally_closed : ConnectionState

-- Twilight's `InMemoryCacheStats`.
pub record Stats : Type 0 where
  pub emojis : ℕ
  pub guilds : ℕ
  pub members : ℕ
  pub presences : ℕ
  pub channels : ℕ
  pub roles : ℕ
  pub unavailable_guilds : ℕ
  pub users : ℕ
  pub voice_states : ℕ

-- An `f64` that is recorded: a whole number, a number of nanoseconds in seconds, or `NAN`.
pub data Value : Type 0 where
  whole : ℕ → Value
  as_secs_f64 : ℕ → Value
  nan : Value

-- What is recorded in a histogram or set in a gauge, with its name and the label `shard`.
pub data Sample : Type 0 where
  histogram : Text → Text → Value → Sample
  gauge : Text → Text → Value → Sample

unfoldable pub status_of : ConnectionState → ℕ
status_of active = 4
status_of disconnected = 1
status_of identifying = 2
status_of resuming = 3
status_of fatally_closed = 0

-- The first latency, in nanoseconds.
unfoldable pub latency_of : List ℕ → Value
latency_of [] = nan
latency_of (latency ∷ latencies) = as_secs_f64 latency

unfoldable pub update_shard_statistics : Text → ConnectionState → List ℕ → Stats → List Sample
update_shard_statistics shard_id connection_status latencies stats =
    let latency = latency_of latencies in
    histogram (codes "gateway_shard_latency_histogram") shard_id latency
    ∷ gauge (codes "gateway_shard_latency") shard_id latency
    ∷ histogram (codes "gateway_shard_status") shard_id (whole (status_of connection_status))
    ∷ gauge (codes "gateway_cache_emojis") shard_id (whole stats.emojis)
    ∷ gauge (codes "gateway_cache_guilds") shard_id (whole stats.guilds)
    ∷ gauge (codes "gateway_cache_members") shard_id (whole stats.members)
    ∷ gauge (codes "gateway_cache_presences") shard_id (whole stats.presences)
    ∷ gauge (codes "gateway_cache_channels") shard_id (whole stats.channels)
    ∷ gauge (codes "gateway_cache_roles") shard_id (whole stats.roles)
    ∷ gauge (codes "gateway_cache_unavailable_guilds") shard_id (whole stats.unavailable_guilds)
    ∷ gauge (codes "gateway_cache_users") shard_id (whole stats.users)
    ∷ gauge (codes "gateway_cache_voice_states") shard_id (whole stats.voice_states)
    ∷ []

-- In nanoseconds.
abbrev pub ten_seconds : ℕ
ten_seconds = 10 * 1000000000

-- One turn of the loop: the time at its beginning, what the shard then says of its connection, and the
-- message that comes.
pub record Turn : Type 0 where
  pub now : ℕ
  pub state : ConnectionState
  pub latencies : List ℕ
  pub message : Incoming

-- The task with its timer; `recorded` has the samples of each update, with its time.
pub record Timed (Cache : Type 0) : Type 0 where
  pub task : Task Cache
  pub last_metrics_update : ℕ
  pub recorded : List (ℕ × List Sample)

-- `stats` is that of Twilight's cache.
module _ {Cache Event : Type 0} (env : Env Cache Event) (stats : Cache → Stats) (shard_id : ℕ) where
  -- `duration_since` is zero where the time runs backwards.
  unfoldable pub update_metrics : Timed Cache → Turn → Timed Cache
  update_metrics t turn =
      if ltb ten_seconds (turn.now - t.last_metrics_update)
      then record t {
        last_metrics_update = turn.now;
        recorded =
            t.recorded
            ++ ((
              turn.now,
              update_shard_statistics (format shard_id) turn.state turn.latencies
                  (Guilds.stats stats t.task.shard.guilds),
            )
                ∷ []);
      }
      else t

  -- The body of the loop, with the timer.
  unfoldable pub timed_round : Timed Cache → Turn → Round (Timed Cache)
  timed_round t turn = elim (round env t.task turn.message) [
    | next task ↦ next (record (update_metrics t turn) { task = task })
    | return task ↦ return (record (update_metrics t turn) { task = task })
    | panic ↦ panic
  ]

  unfoldable pub timed_events : Timed Cache → List Turn → Round (Timed Cache)
  timed_events t [] = next t
  timed_events t (turn ∷ turns) = elim (timed_round t turn) [
    | next t' ↦ timed_events t' turns
    | return t' ↦ return t'
    | panic ↦ panic
  ]
