-- ===== src/Connection/Queue.antt =====
-- What the queue of a client holds.
use gateway_proxy.Prelude.{ℕ, ◌≡◌, subst, some, List}
use gateway_proxy.Text.{Text}
use gateway_proxy.Cache.Records.{InMemoryCache}
use gateway_proxy.State.{Inner}
use gateway_proxy.Dispatch as Dispatch
use gateway_proxy.Server.Client as Client
use gateway_proxy.Server.Client.{ForwardTask}
use gateway_proxy.Server.Forward.{Env, forward_shard}
use gateway_proxy.System.{System, receiving}
use gateway_proxy.System.Refinement.{Reachable-forward_shard}
use gateway_proxy.Connection.{Connection, Event, opened, take_steps}
use gateway_proxy.Connection.Logs.{Interleaves}
use gateway_proxy.Connection.Merging.{sent_by, Runs}
use gateway_proxy.Connection.Soundness.{take_steps-IsSound}

module _ {Event' : Type 0} (client_env : Client.Env) (env : Env)
    (dispatch_env : Dispatch.Env InMemoryCache Event') (capacity : ℕ) where
  -- A connection after these events.
  abbrev pub connect : Inner InMemoryCache → List Event → Connection
  connect state es = take_steps client_env env dispatch_env capacity (opened state) es

  -- Whatever the client and Discord send, and however the tasks interleave: once forward_shard receives,
  -- the queue of the client holds, each in its order and nothing else, the answers of handle_client and
  -- exactly what forward_shard sends, with the arguments that the client was given, for the data that it
  -- has read and for what it has received.
  pub take_steps-forward_shard :
      (state : Inner InMemoryCache) (es : List Event) (task : ForwardTask) (s : System)
      (position : ℕ)
      → (connect state es).forwarding ≡ some (task, s)
      → s.place ≡ receiving position
      → let x = connect state es in
        (x.world.1.shard_forward_task ≡ some task)
        × (sent : List Text) × Interleaves x.world.1.outbox sent x.queue
        × (forward_shard s.env task s.received ≡ some (sent, s.seq))
  take_steps-forward_shard state es task s position e at =
      let x = connect state es in
      let sound = take_steps-IsSound client_env env dispatch_env capacity state es in
      let ((compress, started), (begin_task, reached)) =
        subst (λ f. Runs client_env env dispatch_env capacity f x.world.1) e sound.runs in
      (
        started.1,
        s.queue,
        subst (λ f. Interleaves x.world.1.outbox (sent_by f) x.queue) e sound.merged,
        Reachable-forward_shard task capacity dispatch_env begin_task env s position reached at,
      )
