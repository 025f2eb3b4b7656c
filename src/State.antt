-- ===== src/State.antt =====
-- src/state.rs: the state that all tasks share. An `Arc` of a shard is its index in `shards`, so
-- that a write through one is seen through the others.
pub mod Readiness
pub mod Waiting
pub mod Sessions
use gateway_proxy.Prelude.{
  ℕ, zero, suc, ◌+◌, ◌≡◌, Bool, true, false, Option, none, some, List, [], ◌∷◌, ◌++◌,
}
use gateway_proxy.Text.{Text}
use gateway_proxy.Model.{JsonObject, Map, get, insert}
use gateway_proxy.Deserializer.{SequenceInfo}
use Readiness.{Ready}

-- `dispatch::BroadcastMessage`.
abbrev pub BroadcastMessage : Type 0
BroadcastMessage = Text × Option SequenceInfo

-- `Cache` is the type of the guild cache. `sender` holds what was handed to the shard's
-- `MessageSender`, and `events` what was broadcast, oldest first.
pub record Shard (Cache : Type 0) : Type 0 where
  pub id : ℕ
  pub sender : List Text
  pub events : List BroadcastMessage
  pub ready : Ready
  pub guilds : Cache

pub record Session : Type 0 where
  pub shard_id : ℕ
  pub compress : Option Bool

pub record Inner (Cache : Type 0) : Type 0 where
  pub shards : List (Shard Cache)
  pub shard_count : ℕ
  pub sessions : Map Session

-- The first `n` samples.
abbrev pub take_samples : (ℕ → ℕ) → ℕ → Text
take_samples sample zero = []
take_samples sample (suc n) = sample 0 ∷ take_samples (λ i. sample (suc i)) n

module _ {Cache : Type 0} where
  unfoldable pub get_session : Inner Cache → Text → Option Session
  get_session state session_id = get state.sessions session_id

  -- `sample` is what the random generator yields.
  unfoldable pub create_session : (ℕ → ℕ) → Inner Cache → Session → Inner Cache × Text
  create_session sample state session =
      let session_id = take_samples sample 32 in
      (record state { sessions = insert state.sessions session_id session }, session_id)
