-- ===== src/Proxy/Forwards.antt =====
-- What a client sees of a step of its `forward_shard`.
use gateway_proxy.Prelude.{ℕ, ◌≡◌, refl, sym, ap, ◌∙◌, subst, some, List, [], ◌++◌, get_elem?}
use mathlib.Core.Option
use gateway_proxy.Cache.Records.{InMemoryCache}
use gateway_proxy.State.{Shard}
use gateway_proxy.State.Waiting as Waiting
use gateway_proxy.Dispatch as Dispatch
use gateway_proxy.Server.Client as Client
use gateway_proxy.Server.Client.{ForwardTask}
use gateway_proxy.Server.Forward.{Env}
use gateway_proxy.System.{Place, waiting, crashed, forward_step}
use gateway_proxy.System.Sharing.{forward_at-Same}
use gateway_proxy.Connection.{
  Connection, shard_forwards, added, forwarded, shard_step, open_step, take_steps,
}
use gateway_proxy.Connection.Steps.{with_step}
use gateway_proxy.Proxy.{Forwarder, Seat, Proxy, system_of, stepped_seat, IsAlive}
use gateway_proxy.Proxy.Views.{View, Comes, Goes, by_event}

forwarded-IsAlive : (x : Connection) (place : Place) → IsAlive place → forwarded x place ≡ x
unfolding forwarded
forwarded-IsAlive x crashed alive = absurd alive
forwarded-IsAlive x (waiting Waiting.panicked) alive = absurd alive
forwarded-IsAlive x _ alive = refl

module _ {Event' : Type 0} (client_env : Client.Env) (env : Env)
    (dispatch_env : Dispatch.Env InMemoryCache Event') (capacity : ℕ) where
  pub forwards-Goes :
      (p : Proxy) (seats : List Seat) (seat : Seat) (task : ForwardTask) (f : Forwarder)
      (shard : Shard InMemoryCache)
      → seat.forwarder ≡ some (task, f)
      → get_elem? p.state.shards task.shard ≡ some shard
      → IsAlive (forward_step task capacity (system_of (p.locals task.shard) shard f)).place
      → Goes client_env env dispatch_env capacity p seat
          (record p { seats = seats })
          (stepped_seat seat task f
            (forward_step task capacity (system_of (p.locals task.shard) shard f)))
  unfolding take_steps open_step shard_step
  forwards-Goes p seats seat task f shard e at alive x shows =
      let s = system_of (p.locals task.shard) shard f in
      let s' = forward_step task capacity s in
      let (shard', at', view) = subst (λ o. View p o x.forwarding) e shows.forwarding in
      let runs : x.forwarding ≡ some (task, s) =
        view
        ∙ ap (λ h. some (task, system_of (p.locals task.shard) h f))
            (Option.some_inj.0 (sym at' ∙ at)) in
      let stepped =
        ap (shard_step client_env env dispatch_env capacity x) runs
        ∙ forwarded-IsAlive (with_step x task s s') s'.place alive in
      let same = forward_at-Same task capacity s s.place in
      let p' = record p { seats = seats } in
      by_event client_env env dispatch_env capacity p' (stepped_seat seat task f s') x
        shard_forwards shows.is_open tt
        (subst (Comes client_env env dispatch_env capacity p' (stepped_seat seat task f s'))
          (sym stepped)
          (
            [],
            tt,
            record {
              client = shows.client;
              queue = ap (λ q. q ++ added s.queue s'.queue) shows.queue;
              is_open = shows.is_open;
              forwarding =
                  (shard, at, λ i. some (task, record s' { task = same.0 i; running = same.1 i }));
            },
          ))
