-- ===== src/Connection/Soundness.antt =====
-- The invariant of Merging is kept by every step.
use gateway_proxy.Prelude.{
  ℕ, ◌+◌, ◌<◌, ◌≡◌, refl, subst, Bool, true, false, some, List, [], ◌∷◌, length, length-append, All,
  arith,
}
use gateway_proxy.Cache.Records.{InMemoryCache}
use gateway_proxy.State.{Inner}
use gateway_proxy.Dispatch as Dispatch
use gateway_proxy.Dispatch.{Task}
use gateway_proxy.Server.Client as Client
use gateway_proxy.Server.Client.{ForwardTask, World, Message, Outcome, connected, handle_message}
use gateway_proxy.Server.Client.Outcomes.{Holds-map}
use gateway_proxy.Server.Client.Once.{waiting}
use gateway_proxy.Server.Forward.{Env}
use gateway_proxy.System.{
  System, Reachable, dispatches, ends, commands, with_sender, forwards, forward_step,
}
use gateway_proxy.Connection.{
  Connection, Event, client_sends, discord_sends, clients_command, shard_forwards, sink_sends,
  sink_fails, opened, added, take_steps,
}
use gateway_proxy.Connection.Messages.{handle_message-Continues}
use gateway_proxy.Connection.Steps.{Admits, with_step, Keeps, take_steps-P}
use gateway_proxy.Connection.Logs.{Interleaves, done, added-Interleaves_right, forward_at-Grows}
use gateway_proxy.Connection.Merging.{sent_by, Runs, IsSound, told-IsSound}

module _ {Event' : Type 0} (client_env : Client.Env) (env : Env)
    (dispatch_env : Dispatch.Env InMemoryCache Event') (capacity : ℕ) where
  -- The invariant does not read the rest.
  other-IsSound :
      (x : Connection) (state : Inner InMemoryCache) (greeted sending is_open : Bool)
      → IsSound client_env env dispatch_env capacity x
      → IsSound client_env env dispatch_env capacity (record x {
        world = (state, x.world.1);
        greeted = greeted;
        sending = sending;
        is_open = is_open;
      })
  other-IsSound x state greeted sending is_open h = record {
    phase = h.phase;
    merged = h.merged;
    runs = h.runs;
    held = h.held;
    within = h.within;
  }

  running :
      (x : Connection) (task : ForwardTask) (s : System)
      → x.forwarding ≡ some (task, s)
      → IsSound client_env env dispatch_env capacity x
      → Runs client_env env dispatch_env capacity (some (task, s)) x.world.1
        × Interleaves x.world.1.outbox s.queue x.queue
  running x task s e h = (
    subst (λ f. Runs client_env env dispatch_env capacity f x.world.1) e h.runs,
    subst (λ f. Interleaves x.world.1.outbox (sent_by f) x.queue) e h.merged,
  )

  task-IsSound :
      (x : Connection) (task : ForwardTask) (s : System) (t : Task InMemoryCache) (goes_on : Bool)
      → x.forwarding ≡ some (task, s)
      → ((begin_task : Task InMemoryCache)
          → Reachable task capacity dispatch_env begin_task env s
          → Reachable task capacity dispatch_env begin_task env
              (record s { task = t; running = goes_on }))
      → IsSound client_env env dispatch_env capacity x
      → IsSound client_env env dispatch_env capacity
          (record x { forwarding = some (task, record s { task = t; running = goes_on }) })
  task-IsSound x task s t goes_on e reach h =
      let ((started, (begin_task, reached)), merged) = running x task s e h in
      record {
        phase = h.phase;
        merged = merged;
        runs = (started, (begin_task, reach begin_task reached));
        held = h.held;
        within = h.within;
      }

  step-IsSound :
      (x : Connection) (task : ForwardTask) (s : System)
      → x.forwarding ≡ some (task, s)
      → IsSound client_env env dispatch_env capacity x
      → IsSound client_env env dispatch_env capacity
          (with_step x task s (forward_step task capacity s))
  step-IsSound x task s e h =
      let s' = forward_step task capacity s in
      let ((started, (begin_task, reached)), merged) = running x task s e h in
      record {
        phase = h.phase;
        merged =
            added-Interleaves_right s.queue s'.queue x.world.1.outbox x.queue
              (forward_at-Grows task capacity s s.place) merged;
        runs = (started, (begin_task, forwards s reached));
        held = h.held;
        within = omega (arith, h.within, length-append x.queue (added s.queue s'.queue));
      }

  take-IsSound :
      (x : Connection)
      → x.world.1.compress_tx ≡ false
      → x.taken < length x.queue
      → IsSound client_env env dispatch_env capacity x
      → IsSound client_env env dispatch_env capacity (record x { taken = x.taken + 1 })
  take-IsSound x chosen more h = record {
    phase = h.phase;
    merged = h.merged;
    runs = h.runs;
    held = λ e. absurd cc;
    within = omega arith;
  }

  IsSound-Keeps :
      Keeps client_env env dispatch_env capacity
        (λ _. Unit {0})
        (IsSound client_env env dispatch_env capacity)
  IsSound-Keeps = record {
    closes = λ x h. other-IsSound x x.world.0 x.greeted x.sending false h;
    others = λ x a _ h. other-IsSound x (a.others x.world.0) x.greeted x.sending x.is_open h;
    tells = λ x a msg is_ready counted _ h.
        Holds-map (handle_message client_env a.sample (a.others x.world.0, x.world.1) msg)
          (λ w c. told-IsSound client_env env dispatch_env capacity x w is_ready counted h c)
          (handle_message-Continues client_env a.sample (a.others x.world.0, x.world.1) msg
            h.phase);
    steps = step-IsSound;
    rounds = λ x task s m t e runs ran h.
        task-IsSound x task s t s.running e
          (λ begin_task reached. dispatches s m t runs ran reached) h;
    ends = λ x task s m t e runs ran h.
        task-IsSound x task s t false e (λ begin_task reached. ends s m t runs ran reached) h;
    commands = λ x task s texts e h.
        task-IsSound x task s (with_sender s.task texts) s.running e
          (λ begin_task reached. commands s texts reached) h;
    greets = λ x h. other-IsSound x x.world.0 true x.sending x.is_open h;
    fails = λ x h. other-IsSound x x.world.0 x.greeted false x.is_open h;
    takes = take-IsSound;
  }

  All-Admits : (es : List Event) → All (Admits (λ _. Unit {0})) es
  All-Admits [] = tt
  All-Admits (client_sends a is_ready counted ∷ es) = (tt, All-Admits es)
  All-Admits (discord_sends m ∷ es) = (tt, All-Admits es)
  All-Admits (clients_command texts ∷ es) = (tt, All-Admits es)
  All-Admits (shard_forwards ∷ es) = (tt, All-Admits es)
  All-Admits (sink_sends ∷ es) = (tt, All-Admits es)
  All-Admits (sink_fails ∷ es) = (tt, All-Admits es)

  pub take_steps-IsSound :
      (state : Inner InMemoryCache) (es : List Event)
      → IsSound client_env env dispatch_env capacity
          (take_steps client_env env dispatch_env capacity (opened state) es)
  take_steps-IsSound state es =
      take_steps-P client_env env dispatch_env capacity (λ _. Unit {0})
        (IsSound client_env env dispatch_env capacity) IsSound-Keeps (opened state) es
        (All-Admits es)
        (record {
          phase = waiting refl refl refl;
          merged = done;
          runs = tt;
          held = λ e. refl;
          within = omega arith;
        })
