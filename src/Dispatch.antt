-- ===== src/Dispatch.antt =====
-- `events` of src/dispatch.rs: the task that reads the messages of one shard from Discord.
pub mod Rounds
pub mod Relay
pub mod Session
pub mod Texts
pub mod Live
pub mod Started
pub mod Panics
pub mod Ending
pub mod Caching
pub mod Statistics
use gateway_proxy.Prelude.{
  ℕ, Bool, true, false, not, ◌&&◌, Option, none, some, List, [], ◌∷◌, ◌++◌, ◌==◌, if◌then◌else◌,
}
use gateway_proxy.Text.{Text, codes}
use gateway_proxy.Text.Words.{text_eq}
use gateway_proxy.Deserializer.{
  OpInfo, SequenceInfo, EventTypeInfo, GatewayEvent, from_json, into_parts,
}
use gateway_proxy.Model.{Value, string, array, no_values, JsonObject, Ready, get, insert}
use gateway_proxy.Cache.Guilds as Guilds
use gateway_proxy.State.{Shard}
use gateway_proxy.State.Readiness.{set_ready, set_not_ready}

-- What `shard.next()` yields; a close message comes with the value that `SHUTDOWN` has then.
pub data Incoming : Type 0 where
  text : Text → Incoming
  close : Bool → Incoming
  error closed : Incoming

-- What Twilight reads from a payload.
pub data TwilightEvent (Event : Type 0) : Type 0 where
  dispatch : Event → TwilightEvent Event
  invalidate_session : Bool → TwilightEvent Event
  other : TwilightEvent Event

-- The part of the configuration that is read here, and the libraries: the JSON library, Twilight's
-- `parse` under the flags of the configuration, and the update of its cache.
pub record Env (Cache Event : Type 0) : Type 0 where
  pub externally_accessible_url : Text
  pub ready_from_str : Text → Option Ready
  pub parse : Text → Option (TwilightEvent Event)
  pub update : Cache → Event → Cache

-- The task's own flag, the shard that it shares with the tasks of the clients, and the names that
-- were counted in the metrics.
pub record Task (Cache : Type 0) : Type 0 where
  pub is_ready : Bool
  pub shard : Shard Cache
  pub counted : List Text

-- The task as it begins.
abbrev pub started : {Cache : Type 0} → Shard Cache → Task Cache
started shard = record { is_ready = false; shard = shard; counted = [] }

pub data Round (S : Type 0) : Type 0 where
  next : S → Round S
  return : S → Round S
  panic : Round S

abbrev pub guilds_key : Text
guilds_key = codes "guilds"

abbrev pub resume_url_key : Text
resume_url_key = codes "resume_gateway_url"

abbrev pub ready_name : Text
ready_name = codes "READY"

abbrev pub resumed_name : Text
resumed_name = codes "RESUMED"

-- `if let Some(arr) = guilds.as_array_mut()`.
unfoldable pub clear_array : Value → Value
clear_array (array vs) = array no_values
clear_array v = v

unfoldable pub clear_guilds : JsonObject → JsonObject
clear_guilds d = elim (get d guilds_key) [
  | none ↦ d
  | some guilds ↦ insert d guilds_key (clear_array guilds)
]

unfoldable pub blank_ready : Text → JsonObject → JsonObject
blank_ready url d = insert (clear_guilds d) resume_url_key (string url)

module _ {Cache Event : Type 0} (env : Env Cache Event) where
  -- `none` is the panic of `unwrap`, on a READY that is no JSON object.
  unfoldable pub store_ready : Task Cache → Text → Option (Task Cache)
  store_ready t payload = elim (env.ready_from_str payload) [
    | none ↦ none
    | some ready ↦
        let d = blank_ready env.externally_accessible_url ready.d in
        some (record t {
          is_ready = true;
          shard = record (t.shard) { ready = set_ready t.shard.ready d };
        })
  ]

  unfoldable pub broadcast : Task Cache → Text → Option SequenceInfo → Task Cache
  broadcast t payload sequence = record t {
    shard = record (t.shard) { events = t.shard.events ++ ((payload, sequence) ∷ []) };
  }

  -- The first half of a round, by the event type of the payload.
  unfoldable pub relay :
      Task Cache → Text → OpInfo × Option SequenceInfo × Option EventTypeInfo → Option (Task Cache)
  relay t payload (op, sequence, none) = some t
  relay t payload (op, sequence, some event_type) =
      let t' = record t { counted = t.counted ++ (event_type.name ∷ []) } in
      if text_eq event_type.name ready_name
      then store_ready t' payload
      else if text_eq event_type.name resumed_name
      then some (record t' { is_ready = true })
      else if op.op == 0 && t.is_ready
      then some (broadcast t' payload sequence)
      else some t'

  -- The second half: what Twilight makes of the payload.
  unfoldable pub react : Task Cache → Option (TwilightEvent Event) → Task Cache
  react t (some (dispatch event)) = record t {
    shard = record (t.shard) { guilds = Guilds.update env.update t.shard.guilds event };
  }
  react t (some (invalidate_session can_resume)) = record t {
    is_ready = false;
    shard =
        if can_resume then t.shard else record (t.shard) { ready = set_not_ready t.shard.ready };
  }
  react t (some other) = t
  react t none = t

  unfoldable pub finish : Option (Task Cache) → Text → Round (Task Cache)
  finish none payload = panic
  finish (some t) payload = next (react t (env.parse payload))

  unfoldable pub handle_text : Task Cache → Text → Round (Task Cache)
  handle_text t payload = elim (from_json payload) [
    | none ↦ next t
    | some event ↦ finish (relay t payload (into_parts event)) payload
  ]

  -- The body of the loop.
  unfoldable pub round : Task Cache → Incoming → Round (Task Cache)
  round t (text payload) = handle_text t payload
  round t (close shutdown) = if shutdown then return t else next t
  round t error = next t
  round t closed = return t

  unfoldable pub events : Task Cache → List Incoming → Round (Task Cache)
  events t [] = next t
  events t (m ∷ ms) = elim (round t m) [
    | next t' ↦ events t' ms
    | return t' ↦ return t'
    | panic ↦ panic
  ]
