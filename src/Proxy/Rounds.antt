-- ===== src/Proxy/Rounds.antt =====
-- What one client sees of a round of the task of a shard.
use gateway_proxy.Prelude.{
  ℕ, ◌≡◌, ◌==◌, refl, sym, ap, ◌∙◌, subst, Bool, true, false, Option, none, some, [], if◌then◌else◌,
  inl, inr, Bool-cases, get_elem?, ==_iff,
}
use mathlib.Core.Option
use gateway_proxy.Cache.Records.{InMemoryCache}
use gateway_proxy.State.{Shard}
use gateway_proxy.Dispatch as Dispatch
use gateway_proxy.Dispatch.{Incoming, Task, Round, next, return, round}
use gateway_proxy.Server.Client as Client
use gateway_proxy.Server.Client.{ForwardTask}
use gateway_proxy.Server.Forward.{Env}
use gateway_proxy.System.{System}
use gateway_proxy.Connection.{
  Connection, discord_sends, dispatched, discord_step, open_step, take_steps,
}
use gateway_proxy.Proxy.{Local, Forwarder, Seat, Proxy, system_of, task_of, ran, set}
use gateway_proxy.Proxy.Lists.{get_elem?-set, get_elem?-set_other}
use gateway_proxy.Proxy.Views.{View, Shows, Comes, Goes, by_event}

-- A round after which the loop goes on, or after which it ends.
abbrev pub outcome : Bool → Task InMemoryCache → Round (Task InMemoryCache)
outcome true t = next t
outcome false t = return t

module _ {Event' : Type 0} (client_env : Client.Env) (env : Env)
    (dispatch_env : Dispatch.Env InMemoryCache Event') (capacity : ℕ) where
  dispatched-outcome :
      (x : Connection) (task : ForwardTask) (s : System) (r : Bool) (t : Task InMemoryCache)
      → s.running ≡ true
      → dispatched x task s (outcome r t)
        ≡ record x { forwarding = some (task, record s { task = t; running = r }) }
  unfolding dispatched
  dispatched-outcome x task s true t runs =
      ap (λ b. record x { forwarding = some (task, record s { task = t; running = b }) }) runs
  dispatched-outcome x task s false t runs = refl

  pub discord_step-outcome :
      (x : Connection) (task : ForwardTask) (s : System) (m : Incoming) (r : Bool)
      (t : Task InMemoryCache)
      → s.running ≡ true
      → round dispatch_env s.task m ≡ outcome r t
      → discord_step client_env env dispatch_env capacity x (some (task, s)) m
        ≡ record x { forwarding = some (task, record s { task = t; running = r }) }
  unfolding discord_step
  discord_step-outcome x task s m r t runs ran =
      ap (λ b. if b then dispatched x task s (round dispatch_env s.task m) else x) runs
      ∙ ap (dispatched x task s) ran
      ∙ dispatched-outcome x task s r t runs

  -- After the round the task of its shard is `t`; those of the others are as they were.
  module _ (p : Proxy) (j : ℕ) (shard : Shard InMemoryCache) (m : Incoming) (r : Bool)
      (t : Task InMemoryCache) (at : get_elem? p.state.shards j ≡ some shard)
      (runs : (p.locals j).running ≡ true)
      (went : round dispatch_env (task_of (p.locals j) shard) m ≡ outcome r t) where
    abbrev local_after : Local
    local_after = record { is_ready = t.is_ready; counted = t.counted; running = r }

    pub round-Goes :
        (seat : Seat) → Goes client_env env dispatch_env capacity p seat (ran p j t r) seat
    unfolding take_steps open_step
    round-Goes seat x shows = go seat.forwarder refl shows.forwarding
      where
        shown :
            (y : Connection)
            → y.world.1 ≡ seat.client
            → y.queue ≡ seat.queue
            → y.is_open ≡ true
            → View (ran p j t r) seat.forwarder y.forwarding
            → Shows (ran p j t r) seat y
        shown y client queue is_open view = record {
          client = client;
          queue = queue;
          is_open = is_open;
          forwarding = view;
        }

        other :
            (task : ForwardTask) (f : Forwarder)
            → seat.forwarder ≡ some (task, f)
            → (j == task.shard) ≡ false
            → ¬ (j ≡ task.shard)
            → View p (some (task, f)) x.forwarding
            → Shows (ran p j t r) seat x
        other task f e test apart (shard', at', view) =
            let kept : (ran p j t r).locals task.shard ≡ p.locals task.shard =
              ap (λ b. if b then local_after else p.locals task.shard) test in
            shown x shows.client shows.queue shows.is_open (
              subst (λ o. View (ran p j t r) o x.forwarding) (sym e)
                (
                  shard',
                  get_elem?-set_other p.state.shards j task.shard t.shard apart ∙ at',
                  view ∙ sym (ap (λ l. some (task, system_of l shard' f)) kept),
                ))

        own :
            (task : ForwardTask) (f : Forwarder)
            → seat.forwarder ≡ some (task, f)
            → (j == task.shard) ≡ true
            → j ≡ task.shard
            → View p (some (task, f)) x.forwarding
            → Shows
                (ran p j t r)
                seat
                (discord_step client_env env dispatch_env capacity x x.forwarding m)
        own task f e test same (shard', at', view) =
            let here = subst (λ k. get_elem? p.state.shards k ≡ some shard) same at in
            let s = system_of (p.locals task.shard) shard' f in
            let one : shard ≡ shard' = Option.some_inj.0 (sym here ∙ at') in
            let ran_here : round dispatch_env s.task m ≡ outcome r t =
              subst (λ (k : ℕ). round dispatch_env (task_of (p.locals k) shard') m ≡ outcome r t)
                same
                (subst (λ h. round dispatch_env (task_of (p.locals j) h) m ≡ outcome r t) one
                  went) in
            let stepped =
              ap (λ g. discord_step client_env env dispatch_env capacity x g m) view
              ∙ discord_step-outcome x task s m r t
                  (subst (λ k. (p.locals k).running ≡ true) same runs) ran_here in
            let moved : (ran p j t r).locals task.shard ≡ local_after =
              ap (λ b. if b then local_after else p.locals task.shard) test in
            subst (Shows (ran p j t r) seat) (sym stepped) (
              shown _ shows.client shows.queue shows.is_open (
                subst (λ o. View (ran p j t r) o (some (task, record s { task = t; running = r })))
                  (sym e)
                  (
                    t.shard,
                    subst (λ k. get_elem? (set p.state.shards j t.shard) k ≡ some t.shard) same
                        (get_elem?-set p.state.shards j t.shard shard at),
                    sym (ap (λ l. some (task, system_of l t.shard f)) moved),
                  )))

        go :
            (o : Option (ForwardTask × Forwarder))
            → seat.forwarder ≡ o
            → View p o x.forwarding
            → Comes client_env env dispatch_env capacity (ran p j t r) seat x
        go none e view = (
          [],
          tt,
          shown x shows.client shows.queue shows.is_open
              (subst (λ o. View (ran p j t r) o x.forwarding) (sym e) view),
        )
        go (some (task, f)) e view = elim (Bool-cases (j == task.shard)) [
          | inl test ↦
              by_event client_env env dispatch_env capacity (ran p j t r) seat x (discord_sends m)
                shows.is_open tt ([], tt, own task f e test ((==_iff j task.shard).0 test) view)
          | inr test ↦ (
            [],
            tt,
            other task f e test (λ same. absurd (cc (test, (==_iff j task.shard).1 same))) view,
          )
        ]
