-- ===== src/Connection/Steps.antt =====
-- An invariant of a connection, by the parts of a step.
use gateway_proxy.Prelude.{
  ℕ, ◌+◌, ◌<◌, ◌≡◌, refl, Bool, true, false, not, Option, none, some, List, [], ◌∷◌, ltb, ltb→lt,
  length, All, if-elim,
}
use gateway_proxy.Text.{Text}
use gateway_proxy.Cache.Records.{InMemoryCache}
use gateway_proxy.State.Waiting as Waiting
use gateway_proxy.Dispatch as Dispatch
use gateway_proxy.Dispatch.{Incoming, Task, Round, next, return, panic, round}
use gateway_proxy.Server.Client as Client
use gateway_proxy.Server.Client.{ForwardTask, World, Message, Arrival, Outcome, handle_message}
use gateway_proxy.Server.Client.Outcomes.{Holds}
use gateway_proxy.Server.Forward.{Env}
use gateway_proxy.System.{Place, waiting, crashed, System, with_sender, forward_step}
use gateway_proxy.Connection.{
  Connection, Forwarding, Event, client_sends, discord_sends, clients_command, command_step,
  shard_forwards, sink_sends, sink_fails, enqueue, aborted, start_forwarding, settle, forwarded,
  dispatched, sink_step, send_next, client_step, shard_step, discord_step, open_step, take_step,
  take_steps,
}

-- The connection after a message after which `handle_client` goes on, and after one that ends it.
abbrev pub told : Env → Bool → List Text → Connection → World InMemoryCache → Connection
told env is_ready counted x w = record x {
  world = w;
  forwarding = start_forwarding env is_ready counted w x.forwarding;
  queue = enqueue x x.world.1.outbox w.1.outbox;
}

abbrev pub left : Connection → World InMemoryCache → Connection
left x w = record x { world = w; queue = enqueue x x.world.1.outbox w.1.outbox }

-- After a round of the shard's task.
abbrev pub with_task : Connection → ForwardTask → System → Task InMemoryCache → Bool → Connection
with_task x task s t running = record x {
  forwarding = some (task, record s { task = t; running = running });
}

-- After a step of `forward_shard`.
abbrev pub with_step : Connection → ForwardTask → System → System → Connection
with_step x task s s' = record x {
  forwarding = some (task, s');
  queue = enqueue x s.queue s'.queue;
}

-- `A` holds of what arrives of the client.
abbrev pub Admits : (Arrival InMemoryCache → Type 0) → Event → Type 0
Admits A (client_sends a is_ready counted) = A a
Admits A _ = Unit {0}

module _ {Event' : Type 0} (client_env : Client.Env) (env : Env)
    (dispatch_env : Dispatch.Env InMemoryCache Event') (capacity : ℕ)
    (A : Arrival InMemoryCache → Type 0) (P : Connection → Type 0) where
  -- What an invariant has to show of each part.
  pub record Keeps : Type 0 where
    pub closes : (x : Connection) → P x → P (aborted x)
    pub others :
        (x : Connection) (a : Arrival InMemoryCache)
        → A a
        → P x
        → P (record x { world = (a.others x.world.0, x.world.1) })
    pub tells :
        (x : Connection) (a : Arrival InMemoryCache) (msg : Message) (is_ready : Bool)
        (counted : List Text)
        → A a
        → P x
        → Holds
            (λ w. P (told env is_ready counted x w) × P (left x w))
            (handle_message client_env a.sample (a.others x.world.0, x.world.1) msg)
    pub steps :
        (x : Connection) (task : ForwardTask) (s : System)
        → x.forwarding ≡ some (task, s)
        → P x
        → P (with_step x task s (forward_step task capacity s))
    pub rounds :
        (x : Connection) (task : ForwardTask) (s : System) (m : Incoming) (t : Task InMemoryCache)
        → x.forwarding ≡ some (task, s)
        → s.running ≡ true
        → round dispatch_env s.task m ≡ next t
        → P x
        → P (record x { forwarding = some (task, record s { task = t }) })
    pub ends :
        (x : Connection) (task : ForwardTask) (s : System) (m : Incoming) (t : Task InMemoryCache)
        → x.forwarding ≡ some (task, s)
        → s.running ≡ true
        → round dispatch_env s.task m ≡ return t
        → P x
        → P (record x { forwarding = some (task, record s { task = t; running = false }) })
    pub commands :
        (x : Connection) (task : ForwardTask) (s : System) (texts : List Text)
        → x.forwarding ≡ some (task, s)
        → P x
        → P (record x { forwarding = some (task, record s { task = with_sender s.task texts }) })
    pub fails : (x : Connection) → P x → P (record x { sending = false })
    pub greets : (x : Connection) → P x → P (record x { greeted = true })
    pub takes :
        (x : Connection)
        → x.world.1.compress_tx ≡ false
        → x.taken < length x.queue
        → P x
        → P (record x { taken = x.taken + 1 })

  module _ (keeps : Keeps) where
    settle-P :
        (x : Connection) (is_ready : Bool) (counted : List Text) (o : Outcome (World InMemoryCache))
        → P x
        → Holds (λ w'. P (told env is_ready counted x w') × P (left x w')) o
        → P (settle env is_ready counted x o)
    unfolding settle
    settle-P x is_ready counted (Client.next w) h held = held.0
    settle-P x is_ready counted (Client.disconnect w) h held = keeps.closes (left x w) held.1
    settle-P x is_ready counted Client.panic h held = keeps.closes x h
    settle-P x is_ready counted Client.undefined h held = keeps.closes x h

    client_step-P :
        (x : Connection) (a : Arrival InMemoryCache) (is_ready : Bool) (counted : List Text)
        (msg : Option Message)
        → A a
        → P x
        → P (client_step client_env env dispatch_env capacity x a is_ready counted msg)
    unfolding client_step
    client_step-P x a is_ready counted none admitted h =
        keeps.closes (record x { world = (a.others x.world.0, x.world.1) })
          (keeps.others x a admitted h)
    client_step-P x a is_ready counted (some msg) admitted h =
        settle-P x is_ready counted _ h (keeps.tells x a msg is_ready counted admitted h)

    forwarded-P : (x : Connection) (place : Place) → P x → P (forwarded x place)
    unfolding forwarded
    forwarded-P x crashed h = keeps.closes x h
    forwarded-P x (waiting Waiting.panicked) h = keeps.closes x h
    forwarded-P x _ h = h

    shard_step-P :
        (x : Connection) (f : Option Forwarding)
        → x.forwarding ≡ f
        → P x
        → P (shard_step client_env env dispatch_env capacity x f)
    unfolding shard_step
    shard_step-P x none e h = h
    shard_step-P x (some (task, s)) e h =
        forwarded-P (with_step x task s (forward_step task capacity s)) _ (keeps.steps x task s e h)

    discord_step-P :
        (x : Connection) (f : Option Forwarding) (m : Incoming)
        → x.forwarding ≡ f
        → P x
        → P (discord_step client_env env dispatch_env capacity x f m)
    unfolding discord_step
    discord_step-P x none m e h = h
    discord_step-P x (some (task, s)) m e h =
        if-elim P s.running (λ running. go running (round dispatch_env s.task m) refl) (λ _. h)
      where
        go :
            s.running ≡ true
            → (r : Round (Task InMemoryCache)) → round dispatch_env s.task m ≡ r
            → P (dispatched x task s r)
        go running (next t) ran = unfold dispatched in keeps.rounds x task s m t e running ran h
        go running (return t) ran = unfold dispatched in keeps.ends x task s m t e running ran h
        go running panic ran = unfold dispatched in keeps.closes x h

    command_step-P :
        (x : Connection) (f : Option Forwarding) (texts : List Text)
        → x.forwarding ≡ f
        → P x
        → P (command_step x f texts)
    unfolding command_step
    command_step-P x none texts e h = h
    command_step-P x (some (task, s)) texts e h = keeps.commands x task s texts e h

    sink_step-P : (x : Connection) → P x → P (sink_step x)
    unfolding sink_step send_next
    sink_step-P x h =
        if-elim P (not x.sending) (λ _. h)
          (λ _.
            if-elim P x.greeted
              (λ _.
                if-elim P x.world.1.compress_tx (λ _. h)
                  (λ chosen.
                    if-elim P (ltb x.taken (length x.queue))
                      (λ more. keeps.takes x chosen (ltb→lt x.taken (length x.queue) more) h)
                      (λ _. h)))
              (λ _. keeps.greets x h))

    pub take_step-P :
        (x : Connection) (e : Event)
        → Admits A e
        → P x
        → P (take_step client_env env dispatch_env capacity x e)
    unfolding take_step open_step
    take_step-P x (client_sends a is_ready counted) admitted h =
        if-elim P x.is_open (λ _. client_step-P x a is_ready counted a.msg admitted h) (λ _. h)
    take_step-P x (discord_sends m) admitted h =
        if-elim P x.is_open (λ _. discord_step-P x x.forwarding m refl h) (λ _. h)
    take_step-P x (clients_command texts) admitted h =
        if-elim P x.is_open (λ _. command_step-P x x.forwarding texts refl h) (λ _. h)
    take_step-P x shard_forwards admitted h =
        if-elim P x.is_open (λ _. shard_step-P x x.forwarding refl h) (λ _. h)
    take_step-P x sink_fails admitted h = if-elim P x.is_open (λ _. keeps.fails x h) (λ _. h)
    take_step-P x sink_sends admitted h = if-elim P x.is_open (λ _. sink_step-P x h) (λ _. h)

    pub take_steps-P :
        (x : Connection) (es : List Event)
        → All (Admits A) es
        → P x
        → P (take_steps client_env env dispatch_env capacity x es)
    unfolding take_steps
    take_steps-P x [] admitted h = h
    take_steps-P x (e ∷ es) admitted h =
        take_steps-P (take_step client_env env dispatch_env capacity x e) es admitted.1
          (take_step-P x e admitted.0 h)
