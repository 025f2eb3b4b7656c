-- ===== src/Server/Forward.antt =====
-- `forward_shard` of src/server.rs: the task that sends the events of a shard to one client.
pub mod Numbering
pub mod Shard
pub mod Events
pub mod Ready
pub mod Continue
pub mod Resuming
use gateway_proxy.Prelude.{ℕ, Bool, Option, none, some, List, [], ◌∷◌, ◌++◌, if◌then◌else◌, ◌>>=◌}
use gateway_proxy.Text.{Text, codes, replace_range}
use gateway_proxy.Text.Number.{format}
use gateway_proxy.Deserializer.{SequenceInfo}
use gateway_proxy.Model.{Value, string, JsonObject, insert}
use gateway_proxy.State.{BroadcastMessage}
use gateway_proxy.Cache.Records.{InMemoryCache}
use gateway_proxy.Cache.{Payload, GuildBody, next_sequence, get_ready_payload, get_guild_payloads}
use gateway_proxy.Server.Client.{ForwardTask}

-- What `recv` of the broadcast channel yields.
pub data Received : Type 0 where
  ok : BroadcastMessage → Received
  lagged : ℕ → Received
  closed : Received

-- The JSON library, and what the task finds in the shard: the READY data that it has waited for, and
-- the cache when the READY is built and when the guilds are.
pub record Env : Type 0 where
  pub ready_to_string : Payload JsonObject → Option Text
  pub guild_to_string : Payload GuildBody → Text
  pub ready_payload : JsonObject
  pub ready_cache : InMemoryCache
  pub guild_cache : InMemoryCache

abbrev pub resumed : Text
resumed = codes "{\"t\":\"RESUMED\",\"s\":null,\"op\":0,\"d\":{}}"

abbrev pub session_id_key : Text
session_id_key = codes "session_id"

module _ (env : Env) where
  unfoldable pub new_ready : Text → ℕ → Payload JsonObject × ℕ
  new_ready session_id seq =
      let (ready_payload, seq') = get_ready_payload env.ready_cache env.ready_payload seq in
      (record ready_payload { d = insert ready_payload.d session_id_key (string session_id) }, seq')

  -- What is sent before the events, and the sequence number after it.
  unfoldable pub greeting : ForwardTask → List Text × ℕ
  greeting task =
      if task.send_guilds
      then (let (ready_payload, seq) = new_ready task.session_id task.seq in
          let (guilds, seq') = get_guild_payloads env.guild_cache env.guild_to_string seq in
          (
            (elim (env.ready_to_string ready_payload) [
              | none ↦ []
              | some serialized ↦ serialized ∷ []
            ])
                ++ guilds,
            seq',
          ))
      else (resumed ∷ [], task.seq)

-- The payload as the client gets it, and the sequence number then; `none` is a panic.
unfoldable pub renumber : BroadcastMessage → ℕ → Option (Text × ℕ)
renumber (payload, none) seq = some (payload, seq)
renumber (payload, some info) seq = do
  let seq' = next_sequence seq
  payload' ← replace_range payload info.range.start info.range.end (format seq')
  some (payload', seq')

-- The loop: what is sent, and the sequence number at the end.
unfoldable pub forward : List Received → ℕ → Option (List Text × ℕ)
forward [] seq = some ([], seq)
forward (ok message ∷ received) seq = do
  (payload, seq') ← renumber message seq
  (payloads, last) ← forward received seq'
  some (payload ∷ payloads, last)
forward (lagged amt ∷ received) seq = forward received seq
forward (closed ∷ received) seq = forward received seq

unfoldable pub forward_shard : Env → ForwardTask → List Received → Option (List Text × ℕ)
forward_shard env task received = do
  let (first, seq) = greeting env task
  (payloads, last) ← forward received seq
  some (first ++ payloads, last)
