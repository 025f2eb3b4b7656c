-- ===== src/Connection.antt =====
-- `handle_client` of src/server.rs with all that it spawns: one client beside the task of its shard.
pub mod Messages
pub mod Steps
pub mod Logs
pub mod Merging
pub mod Soundness
pub mod Queue
pub mod Feeding
pub mod Delivery
pub mod Unmoved
pub mod Unheard
pub mod Staying
pub mod Heartbeats
use gateway_proxy.Prelude.{
  ℕ, zero, suc, Bool, true, false, not, Option, none, some, List, [], ◌∷◌, ◌++◌, ◌+◌, ltb,
  if◌then◌else◌, length, get_elem?,
}
use gateway_proxy.Text.{Text}
use gateway_proxy.Cache.Records.{InMemoryCache}
use gateway_proxy.State.{Inner, Shard}
use gateway_proxy.Dispatch as Dispatch
use gateway_proxy.Dispatch.{Incoming, Task, Round, next, return, panic, round}
use gateway_proxy.Server.Client as Client
use gateway_proxy.Server.Client.{
  ForwardTask, World, Arrival, Message, Outcome, connected, handle_message,
}
use gateway_proxy.Server.Forward.{Env}
use gateway_proxy.State.Waiting as Waiting
use gateway_proxy.System.{Place, waiting, crashed, System, spawned, with_sender, forward_step}

-- A spawned `forward_shard`, with its arguments. The shard in it is the one of the shared state: what
-- it reads of the shard only `events` changes, and `handle_client` reads nothing of that.
abbrev pub Forwarding : Type 0
Forwarding = ForwardTask × System

-- The shared state with what is the client's own; the other task; all that was ever handed to the queue
-- of the sink; of the sink whether it has sent the HELLO, whether it still runs, and how many messages of
-- the queue it has sent; and whether `handle_client` still runs.
pub record Connection : Type 0 where
  pub world : World InMemoryCache
  pub forwarding : Option Forwarding
  pub queue : List Text
  pub greeted : Bool
  pub sending : Bool
  pub taken : ℕ
  pub is_open : Bool

abbrev pub opened : Inner InMemoryCache → Connection
opened state = record {
  world = (state, connected);
  forwarding = none;
  queue = [];
  greeted = false;
  sending = true;
  taken = 0;
  is_open = true;
}

-- What happens next: a message of the client or the end of its stream, with what the task of the shard
-- has in its own variables then; a message of Discord for the shard, before `forward_shard` is spawned
-- among what the other tasks do; commands that were handed to the sender of the shard; a step of
-- `forward_shard`; a send of the sink, or one that fails.
pub data Event : Type 0 where
  client_sends : Arrival InMemoryCache → Bool → List Text → Event
  discord_sends : Incoming → Event
  clients_command : List Text → Event
  shard_forwards sink_sends sink_fails : Event

-- What a log has got more than before.
unfoldable pub added : List Text → List Text → List Text
added [] after = after
added (x ∷ before) [] = []
added (x ∷ before) (y ∷ after) = added before after

-- The queue after one of its writers has gone on.
abbrev pub enqueue : Connection → List Text → List Text → List Text
enqueue x before after = x.queue ++ added before after

-- The end of `handle_client`, which aborts the other tasks, or of the process.
abbrev pub aborted : Connection → Connection
aborted x = record x { is_open = false }

-- The task that a message has spawned, if it is the first one.
unfoldable pub start_forwarding :
    Env → Bool → List Text → World InMemoryCache → Option Forwarding → Option Forwarding
start_forwarding env is_ready counted w (some forwarding) = some forwarding
start_forwarding env is_ready counted (state, c) none = elim c.shard_forward_task [
  | none ↦ none
  | some task ↦ elim (get_elem? state.shards task.shard) [
    | none ↦ none
    | some shard ↦
        some (
          task,
          spawned (record { is_ready = is_ready; shard = shard; counted = counted }) env task,
        )
  ]
]

unfoldable pub settle :
    Env → Bool → List Text → Connection → Outcome (World InMemoryCache) → Connection
settle env is_ready counted x (Client.next w) = record x {
  world = w;
  forwarding = start_forwarding env is_ready counted w x.forwarding;
  queue = enqueue x x.world.1.outbox w.1.outbox;
}
settle env is_ready counted x (Client.disconnect w) =
    aborted (record x { world = w; queue = enqueue x x.world.1.outbox w.1.outbox })
settle env is_ready counted x Client.panic = aborted x
settle env is_ready counted x Client.undefined = aborted x

-- A panic of `forward_shard` ends the process.
unfoldable pub forwarded : Connection → Place → Connection
forwarded x crashed = aborted x
forwarded x (waiting Waiting.panicked) = aborted x
forwarded x place = x

-- A round of the task of the shard, or the panic of the process.
unfoldable pub dispatched :
    Connection → ForwardTask → System → Round (Task InMemoryCache) → Connection
dispatched x task s (next t) = record x { forwarding = some (task, record s { task = t }) }
dispatched x task s (return t) = record x {
  forwarding = some (task, record s { task = t; running = false });
}
dispatched x task s panic = aborted x

-- What the sender of the shard has got by now, through this client and others.
unfoldable pub command_step : Connection → Option Forwarding → List Text → Connection
command_step x none texts = x
command_step x (some (task, s)) texts = record x {
  forwarding = some (task, record s { task = with_sender s.task texts });
}

-- After the HELLO the sink waits for the choice of compression, which is sent when `forward_shard` is
-- spawned; then it takes the queue.
unfoldable pub send_next : Connection → Connection
send_next x =
    if x.world.1.compress_tx
    then x
    else if ltb x.taken (length x.queue)
    then record x { taken = x.taken + 1 }
    else x

unfoldable pub sink_step : Connection → Connection
sink_step x =
    if not x.sending then x else if x.greeted then send_next x else record x { greeted = true }

-- `capacity` is how many messages the channel of a shard retains.
module _ {Event' : Type 0} (client_env : Client.Env) (env : Env)
    (dispatch_env : Dispatch.Env InMemoryCache Event') (capacity : ℕ) where
  unfoldable pub client_step :
      Connection → Arrival InMemoryCache → Bool → List Text → Option Message → Connection
  client_step x a is_ready counted none =
      aborted (record x { world = (a.others x.world.0, x.world.1) })
  client_step x a is_ready counted (some msg) =
      settle env is_ready counted x
        (handle_message client_env a.sample (a.others x.world.0, x.world.1) msg)

  unfoldable pub shard_step : Connection → Option Forwarding → Connection
  shard_step x none = x
  shard_step x (some (task, s)) =
      let s' = forward_step task capacity s in
      forwarded (record x { forwarding = some (task, s'); queue = enqueue x s.queue s'.queue })
        s'.place

  unfoldable pub discord_step : Connection → Option Forwarding → Incoming → Connection
  discord_step x none m = x
  discord_step x (some (task, s)) m =
      if s.running then dispatched x task s (round dispatch_env s.task m) else x

  unfoldable pub open_step : Connection → Event → Connection
  open_step x (client_sends a is_ready counted) = client_step x a is_ready counted a.msg
  open_step x (discord_sends m) = discord_step x x.forwarding m
  open_step x (clients_command texts) = command_step x x.forwarding texts
  open_step x shard_forwards = shard_step x x.forwarding
  open_step x sink_sends = sink_step x
  open_step x sink_fails = record x { sending = false }

  unfoldable pub take_step : Connection → Event → Connection
  take_step x e = if x.is_open then open_step x e else x

  unfoldable pub take_steps : Connection → List Event → Connection
  take_steps x [] = x
  take_steps x (e ∷ es) = take_steps (take_step x e) es
