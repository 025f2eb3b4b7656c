-- ===== src/Proxy/Crashes.antt =====
-- The replacement of the sequence numbers in the running proxy.
use gateway_proxy.Prelude.{ℕ, ◌≡◌, ◌≢◌, ap, sym, ◌∙◌, subst, true, some, get_elem?}
use mathlib.Core.Option
use gateway_proxy.Cache.Records.{InMemoryCache}
use gateway_proxy.State.{Shard}
use gateway_proxy.Dispatch as Dispatch
use gateway_proxy.Launch.{Config, create_state}
use gateway_proxy.Server.Client as Client
use gateway_proxy.Server.Client.{ForwardTask}
use gateway_proxy.Server.Forward.{Env}
use gateway_proxy.System.{crashed, forwards, forward_step}
use gateway_proxy.System.Safety.{Reachable-not_crashed}
use gateway_proxy.Connection.Feeding.{Begun, take_steps-Begun}
use gateway_proxy.Connection.Queue.{connect}
use gateway_proxy.Proxy.{Local, Forwarder, Seat, Proxy, Reaches, system_of}
use gateway_proxy.Proxy.Begun.{create_state-IsFed}
use gateway_proxy.Proxy.Views.{View}
use gateway_proxy.Proxy.Soundness.{Reaches-Seen}

module _ {Event' : Type 0} (client_env : Client.Env) (env : Env)
    (dispatch_env : Dispatch.Env InMemoryCache Event') (capacity : ℕ) (cache : InMemoryCache)
    (config : Config) (recommended : ℕ) (locals : ℕ → Local) where
  -- At any time of any run of the proxy without a panic or undefined behaviour so far, whatever the
  -- clients and Discord have sent, the next step of the forward_shard of a client that is connected
  -- does not panic in the replacement of the sequence number, even where the numbers wrap around.
  pub Reaches-not_crashed :
      (p : Proxy) (k : ℕ) (seat : Seat) (task : ForwardTask) (f : Forwarder)
      (shard : Shard InMemoryCache)
      → Reaches client_env env dispatch_env capacity
          (create_state cache config recommended)
          locals
          p
      → get_elem? p.seats k ≡ some seat
      → seat.is_open ≡ true
      → seat.forwarder ≡ some (task, f)
      → get_elem? p.state.shards task.shard ≡ some shard
      → (forward_step task capacity (system_of (p.locals task.shard) shard f)).place ≢ crashed
  Reaches-not_crashed p k seat task f shard reached at is_open runs there =
      let begin = create_state cache config recommended in
      let fed = create_state-IsFed client_env env dispatch_env capacity cache config recommended in
      let (es, fine, shows) =
        Reaches-Seen client_env env dispatch_env capacity begin locals fed p reached k seat at
          is_open in
      let (shard', there', view) =
        subst (λ o. View p o (connect client_env env dispatch_env capacity begin es).forwarding)
          runs shows.forwarding in
      let s = system_of (p.locals task.shard) shard f in
      let same =
        view
        ∙ ap (λ h. some (task, system_of (p.locals task.shard) h f))
            (Option.some_inj.0 (sym there' ∙ there)) in
      let (begin_task, is_fed, reachable) =
        subst (Begun client_env env dispatch_env capacity) same
          (take_steps-Begun client_env env dispatch_env capacity begin es fed fine) in
      Reachable-not_crashed task capacity dispatch_env begin_task env (forward_step task capacity s)
        is_fed.relayable (forwards s reachable)
