-- ===== src/System.antt =====
-- `forward_shard` of src/server.rs, step by step, beside `events` of src/dispatch.rs: one client of a
-- shard while the task of the shard goes on.
pub mod Refinement
pub mod Replays
pub mod Positions
pub mod Progress
pub mod Safety
pub mod Joining
pub mod Service
pub mod Sharing
pub mod Data
pub mod Delivery
use gateway_proxy.Prelude.{
  ℕ, ◌+◌, ◌-◌, ◌≡◌, Bool, true, false, Option, none, some, List, [], ◌∷◌, ◌++◌, ltb, if◌then◌else◌,
  length, get_elem?,
}
use gateway_proxy.Text.{Text}
use gateway_proxy.Cache.Records.{InMemoryCache}
use gateway_proxy.Cache.{get_guild_payloads}
use gateway_proxy.State.{BroadcastMessage}
use gateway_proxy.State.Waiting as Waiting
use gateway_proxy.State.Waiting.{testing, returned, advance_at}
use gateway_proxy.Dispatch as Dispatch
use gateway_proxy.Dispatch.{Incoming, Task, next, return, round}
use gateway_proxy.Server.Client.{ForwardTask}
use gateway_proxy.Server.Forward.{Received, ok, lagged, Env, resumed, new_ready, renumber}

-- Where `forward_shard` stands: in `wait_until_ready`, before the READY or the RESUMED is sent, before
-- the guilds are, before `subscribe`, and before a `recv` of the message with this number. `crashed` is
-- the panic of `replace_range`.
pub data Place : Type 0 where
  waiting : Waiting.Place → Place
  preparing introducing unsubscribed crashed : Place
  receiving : ℕ → Place

-- The task of the shard and whether it still runs, and the one of the client: what it has read of the
-- shard is in `env`, `queue` is what it has sent into the queue of the sink, `received` what `recv` has
-- yielded, and `subscribed` how much had been broadcast when it called `subscribe`.
pub record System : Type 0 where
  pub task : Task InMemoryCache
  pub running : Bool
  pub place : Place
  pub env : Env
  pub seq : ℕ
  pub queue : List Text
  pub received : List Received
  pub subscribed : ℕ

-- The task after clients have handed commands to the sender of its shard.
abbrev pub with_sender : Task InMemoryCache → List Text → Task InMemoryCache
with_sender t texts = record t { shard = record (t.shard) { sender = texts } }

-- The client begins at any state of the shard's task. Of `env` only the JSON library is read.
abbrev pub spawned : Task InMemoryCache → Env → ForwardTask → System
spawned task env client = record {
  task = task;
  running = true;
  place = waiting testing;
  env = env;
  seq = client.seq;
  queue = [];
  received = [];
  subscribed = 0;
}

unfoldable pub wait : System → Waiting.Place → System
wait s (returned payload) = record s {
  place = preparing;
  env = record (s.env) { ready_payload = payload };
}
wait s place = record s { place = waiting place }

-- `capacity` is how many messages a channel retains that is made with `CONFIG.backpressure`.
module _ (client : ForwardTask) (capacity : ℕ) where
  unfoldable pub send_ready : System → System
  send_ready s =
      let env = record (s.env) { ready_cache = s.task.shard.guilds } in
      let (ready_payload, seq) = new_ready env client.session_id s.seq in
      record s {
        place = introducing;
        env = env;
        seq = seq;
        queue = s.queue ++ (elim (env.ready_to_string ready_payload) [
          | none ↦ []
          | some serialized ↦ serialized ∷ []
        ]);
      }

  unfoldable pub send_guilds : System → System
  send_guilds s =
      let env = record (s.env) { guild_cache = s.task.shard.guilds } in
      let (guilds, seq) = get_guild_payloads env.guild_cache env.guild_to_string s.seq in
      record s { place = unsubscribed; env = env; seq = seq; queue = s.queue ++ guilds }

  unfoldable pub send_resumed : System → System
  send_resumed s = record s { place = unsubscribed; queue = s.queue ++ (resumed ∷ []) }

  unfoldable pub subscribe : System → System
  subscribe s = record s {
    place = receiving (length s.task.shard.events);
    subscribed = length s.task.shard.events;
  }

  -- What is done with a message that was received.
  unfoldable pub deliver : System → ℕ → BroadcastMessage → Option (Text × ℕ) → System
  deliver s position message none = record s {
    place = crashed;
    received = s.received ++ (ok message ∷ []);
  }
  deliver s position message (some (payload, seq)) = record s {
    place = receiving (position + 1);
    seq = seq;
    queue = s.queue ++ (payload ∷ []);
    received = s.received ++ (ok message ∷ []);
  }

  -- A receiver that is too far behind is told so, and goes on with the oldest message that is retained.
  unfoldable pub receive : System → ℕ → System
  receive s position =
      if ltb (position + capacity) (length s.task.shard.events)
      then record s {
        place = receiving (length s.task.shard.events - capacity);
        received = s.received ++ (lagged (length s.task.shard.events - capacity - position) ∷ []);
      }
      else elim (get_elem? s.task.shard.events position) [
        | none ↦ s
        | some message ↦ deliver s position message (renumber message s.seq)
      ]

  -- One step of the client's task; it stays where it is while it has nothing to receive.
  unfoldable pub forward_at : System → Place → System
  forward_at s (waiting place) = wait s (advance_at s.task.shard.ready place)
  forward_at s preparing = if client.send_guilds then send_ready s else send_resumed s
  forward_at s introducing = send_guilds s
  forward_at s unsubscribed = subscribe s
  forward_at s (receiving position) = receive s position
  forward_at s crashed = s

  abbrev pub forward_step : System → System
  forward_step s = forward_at s s.place

  -- Every interleaving of the rounds of the shard's task with the steps of the client's, and with the
  -- commands that clients send to the shard. A panic of the shard's task ends the process.
  module _ {Event : Type 0} (dispatch_env : Dispatch.Env InMemoryCache Event)
      (begin_task : Task InMemoryCache) (begin_env : Env) where
    pub data Reachable : System → Type 0 where
      begins : Reachable (spawned begin_task begin_env client)
      dispatches :
          (s : System) (m : Incoming) (t : Task InMemoryCache)
          → s.running ≡ true
          → round dispatch_env s.task m ≡ next t
          → Reachable s
          → Reachable (record s { task = t })
      ends :
          (s : System) (m : Incoming) (t : Task InMemoryCache)
          → s.running ≡ true
          → round dispatch_env s.task m ≡ return t
          → Reachable s
          → Reachable (record s { task = t; running = false })
      commands :
          (s : System) (texts : List Text)
          → Reachable s
          → Reachable (record s { task = with_sender s.task texts })
      forwards : (s : System) → Reachable s → Reachable (forward_step s)
