-- ===== src/Proxy.antt =====
-- The tasks of src/main.rs, src/dispatch.rs and src/server.rs over one shared state: any number of
-- clients, and the task of every shard.
pub mod Senders
pub mod Lists
pub mod Views
pub mod Rounds
pub mod Spawning
pub mod Told
pub mod Forwards
pub mod Soundness
pub mod Begun
pub mod Clients
pub mod Ids
pub mod Sessions
pub mod Safety
pub mod Messages
pub mod Crashes
use gateway_proxy.Prelude.{
  ℕ, zero, suc, ◌≡◌, Bool, true, false, Option, none, some, List, [], ◌∷◌, ◌++◌, ◌==◌,
  if◌then◌else◌, get_elem?,
}
use gateway_proxy.Text.{Text}
use gateway_proxy.Cache.Records.{InMemoryCache}
use gateway_proxy.State.{Inner, Shard}
use gateway_proxy.State.Waiting as Waiting
use gateway_proxy.State.Waiting.{testing}
use gateway_proxy.Dispatch as Dispatch
use gateway_proxy.Dispatch.{Incoming, Task, next, return, round}
use gateway_proxy.Server.Client as Client
use gateway_proxy.Server.Client.{Client, ForwardTask, World, Message, connected, handle_message}
use gateway_proxy.Server.Forward.{Received, Env}
use gateway_proxy.System.{Place, waiting, crashed, System, forward_step}
use gateway_proxy.Connection.{added}

-- What the task of a shard has in its own variables, and whether it still runs.
pub record Local : Type 0 where
  pub is_ready : Bool
  pub counted : List Text
  pub running : Bool

-- What a `forward_shard` has in its own variables, and what it has sent and received.
pub record Forwarder : Type 0 where
  pub place : Place
  pub env : Env
  pub seq : ℕ
  pub queue : List Text
  pub received : List Received
  pub subscribed : ℕ

-- A client: what `handle_client` has in its own variables, the `forward_shard` that it has spawned, the
-- queue of its sink, and whether `handle_client` still runs.
pub record Seat : Type 0 where
  pub client : Client
  pub forwarder : Option (ForwardTask × Forwarder)
  pub queue : List Text
  pub is_open : Bool

-- The shared state, the variables of the task of each shard by the index of the shard, and the clients in
-- the order in which they came.
pub record Proxy : Type 0 where
  pub state : Inner InMemoryCache
  pub locals : ℕ → Local
  pub seats : List Seat

abbrev pub seated : Seat
seated = record { client = connected; forwarder = none; queue = []; is_open = true }

-- A write through an index; out of range it changes nothing.
unfoldable pub set {ℓ} : {A : Type ℓ} → List A → ℕ → A → List A
set [] i x = []
set (y ∷ ys) zero x = x ∷ ys
set (y ∷ ys) (suc i) x = y ∷ set ys i x

-- The task of a shard, which shares the shard with the clients.
abbrev pub task_of : Local → Shard InMemoryCache → Task InMemoryCache
task_of l shard = record { is_ready = l.is_ready; shard = shard; counted = l.counted }

-- `forward_shard` beside that task.
abbrev pub system_of : Local → Shard InMemoryCache → Forwarder → System
system_of l shard f = record {
  task = task_of l shard;
  running = l.running;
  place = f.place;
  env = f.env;
  seq = f.seq;
  queue = f.queue;
  received = f.received;
  subscribed = f.subscribed;
}

abbrev pub forwarder_of : System → Forwarder
forwarder_of s = record {
  place = s.place;
  env = s.env;
  seq = s.seq;
  queue = s.queue;
  received = s.received;
  subscribed = s.subscribed;
}

-- `forward_shard` as it is spawned.
abbrev pub begin_forwarder : Env → ForwardTask → Forwarder
begin_forwarder env task = record {
  place = waiting testing;
  env = env;
  seq = task.seq;
  queue = [];
  received = [];
  subscribed = 0;
}

unfoldable pub start_forwarder :
    Env → World InMemoryCache → Option (ForwardTask × Forwarder) → Option (ForwardTask × Forwarder)
start_forwarder env w (some f) = some f
start_forwarder env (state, c) none = elim c.shard_forward_task [
  | none ↦ none
  | some task ↦ elim (get_elem? state.shards task.shard) [
    | none ↦ none
    | some shard ↦ some (task, begin_forwarder env task)
  ]
]

-- The client after a message.
abbrev pub told_seat : Env → Seat → World InMemoryCache → Seat
told_seat env seat w = record seat {
  client = w.1;
  forwarder = start_forwarder env w seat.forwarder;
  queue = seat.queue ++ added seat.client.outbox w.1.outbox;
}

-- The client after a step of its `forward_shard`.
abbrev pub stepped_seat : Seat → ForwardTask → Forwarder → System → Seat
stepped_seat seat task f s = record seat {
  forwarder = some (task, forwarder_of s);
  queue = seat.queue ++ added f.queue s.queue;
}

-- The shared state and the variables of a task after one of its rounds.
abbrev pub ran : Proxy → ℕ → Task InMemoryCache → Bool → Proxy
ran p j t running = record p {
  state = record (p.state) { shards = set p.state.shards j t.shard };
  locals = λ i.
      if j == i
      then record { is_ready = t.is_ready; counted = t.counted; running = running }
      else p.locals i;
}

-- `forward_shard` has not panicked, which would end the process.
abbrev pub IsAlive : Place → Type 0
IsAlive crashed = ⊥
IsAlive (waiting Waiting.panicked) = ⊥
IsAlive _ = Unit {0}

-- Every run of the proxy without a panic or undefined behaviour. A message of a client comes with the
-- random numbers that are drawn while it is handled; Discord may send any message to any shard at any time.
module _ {Event : Type 0} (client_env : Client.Env) (env : Env)
    (dispatch_env : Dispatch.Env InMemoryCache Event) (capacity : ℕ) (begin : Inner InMemoryCache)
    (locals : ℕ → Local) where
  pub data Reaches : Proxy → Type 0 where
    starts : Reaches (record { state = begin; locals = locals; seats = [] })
    accepts : (p : Proxy) → Reaches p → Reaches (record p { seats = p.seats ++ (seated ∷ []) })
    tells :
        (p : Proxy) (i : ℕ) (seat : Seat) (sample : ℕ → ℕ) (msg : Message) (w : World InMemoryCache)
        → get_elem? p.seats i ≡ some seat
        → seat.is_open ≡ true
        → handle_message client_env sample (p.state, seat.client) msg ≡ Client.next w
        → Reaches p
        → Reaches (record p { state = w.0; seats = set p.seats i (told_seat env seat w) })
    leaves :
        (p : Proxy) (i : ℕ) (seat : Seat) (sample : ℕ → ℕ) (msg : Message) (w : World InMemoryCache)
        → get_elem? p.seats i ≡ some seat
        → seat.is_open ≡ true
        → handle_message client_env sample (p.state, seat.client) msg ≡ Client.disconnect w
        → Reaches p
        → Reaches
            (record p { state = w.0; seats = set p.seats i (record seat { is_open = false }) })
    hangs_up :
        (p : Proxy) (i : ℕ) (seat : Seat)
        → get_elem? p.seats i ≡ some seat
        → Reaches p
        → Reaches (record p { seats = set p.seats i (record seat { is_open = false }) })
    rounds :
        (p : Proxy) (j : ℕ) (shard : Shard InMemoryCache) (m : Incoming) (t : Task InMemoryCache)
        → get_elem? p.state.shards j ≡ some shard
        → (p.locals j).running ≡ true
        → round dispatch_env (task_of (p.locals j) shard) m ≡ next t
        → Reaches p
        → Reaches (ran p j t true)
    ends :
        (p : Proxy) (j : ℕ) (shard : Shard InMemoryCache) (m : Incoming) (t : Task InMemoryCache)
        → get_elem? p.state.shards j ≡ some shard
        → (p.locals j).running ≡ true
        → round dispatch_env (task_of (p.locals j) shard) m ≡ return t
        → Reaches p
        → Reaches (ran p j t false)
    forwards :
        (p : Proxy) (i : ℕ) (seat : Seat) (task : ForwardTask) (f : Forwarder)
        (shard : Shard InMemoryCache)
        → get_elem? p.seats i ≡ some seat
        → seat.is_open ≡ true
        → seat.forwarder ≡ some (task, f)
        → get_elem? p.state.shards task.shard ≡ some shard
        → IsAlive (forward_step task capacity (system_of (p.locals task.shard) shard f)).place
        → Reaches p
        → Reaches (record p {
          seats = set p.seats i (
              stepped_seat seat task f
                (forward_step task capacity (system_of (p.locals task.shard) shard f)));
        })
