-- ===== src/Connection/Feeding.antt =====
-- The shard of which a connection begins to get events.
use gateway_proxy.Prelude.{
  ℕ, zero, suc, ◌≡◌, subst, Bool, Option, none, some, List, [], ◌∷◌, inl, inr, Option-cases,
  get_elem?, All, All-get_elem?,
}
use gateway_proxy.Text.{Text}
use gateway_proxy.Cache.Records.{InMemoryCache}
use gateway_proxy.State.{Inner, Shard, create_session}
use gateway_proxy.Dispatch as Dispatch
use gateway_proxy.Dispatch.Rounds as Rounds
use gateway_proxy.Dispatch.{Task, started, Incoming, Round, events}
use gateway_proxy.Dispatch.Relay.{Relayable, events-Relayable}
use gateway_proxy.Dispatch.Session.{Stored, events-Stored}
use gateway_proxy.Server.Client as Client
use gateway_proxy.Server.Client.{
  ForwardTask, World, Message, Arrival, Outcome, set_sender, send_to, handle_command,
  handle_message,
}
use gateway_proxy.Server.Client.Outcomes.{Holds, Holds-map, handle_message-Holds}
use gateway_proxy.Server.Client.Cases.{
  attach-Holds, handle_identify-Holds, resume_session-Holds, handle_resume-Holds, handle_op-Holds,
}
use gateway_proxy.Server.Forward.{Env}
use gateway_proxy.System.{commands, System, Reachable, begins, dispatches, ends, forwards}
use gateway_proxy.Connection.{Connection, Forwarding, Event, opened, start_forwarding, take_steps}
use gateway_proxy.Connection.Steps.{Admits, Keeps, take_steps-P}

-- What a client does to the shards, it does to their senders.
module _ {Cache : Type 0} (P : Shard Cache → Type 0)
    (sender-P : (s : Shard Cache) (text : Text) → P s → P (set_sender s text))
    (env : Client.Env) where
  abbrev AllShards : World Cache → Type 0
  AllShards w = All P w.0.shards

  send_to-All :
      (shards : List (Shard Cache)) (i : ℕ) (text : Text)
      → All P shards
      → All P (send_to shards i text)
  unfolding send_to
  send_to-All [] i text h = tt
  send_to-All (s ∷ shards) zero text h = (sender-P s text h.0, h.1)
  send_to-All (s ∷ shards) (suc i) text h = (h.0, send_to-All shards i text h.1)

  handle_command-All :
      (w : World Cache) (payload : Text) → AllShards w → AllShards (handle_command w payload)
  unfolding handle_command
  handle_command-All (state, c) payload h = elim (Option-cases c.shard_sender) [
    | inl e ↦ rw (e, handle_command) h
    | inr (i, e) ↦ rw (e, handle_command) (send_to-All state.shards i payload h)
  ]

  pub handle_message-All :
      (sample : ℕ → ℕ) (w : World Cache) (msg : Message)
      → AllShards w
      → Holds AllShards (handle_message env sample w msg)
  unfolding create_session
  handle_message-All sample (state, c) msg h =
      handle_message-Holds AllShards env sample (state, c) msg h
        λ payload event _ _.
          handle_op-Holds AllShards env sample state c _ payload (λ _. h)
            (λ _.
              handle_identify-Holds AllShards env sample state c payload h
                λ identify ok. attach-Holds AllShards env sample state c identify λ shard there. h)
            (λ _. handle_resume-Holds AllShards env sample state c payload h λ resume ok.
              resume_session-Holds AllShards env sample state c resume h
                λ session shard known there first. h)
            (λ _ _ _. handle_command-All (state, c) payload h)

module _ {Event' : Type 0} (client_env : Client.Env) (env : Env)
    (dispatch_env : Dispatch.Env InMemoryCache Event') (capacity : ℕ) where
  -- What was broadcast in the shard are dispatch events with the number found in them, and its READY
  -- data, if there is any, is as `events` stores it.
  pub record IsFed (s : Shard InMemoryCache) : Type 0 where
    pub relayable : All Relayable s.events
    pub stored : Stored dispatch_env (started s)

  -- So the task of the shard keeps it, whatever Discord sends.
  pub events-IsFed :
      (t : Task InMemoryCache) (ms : List Incoming)
      → IsFed t.shard
      → Rounds.Holds (λ t'. IsFed t'.shard) (events dispatch_env t ms)
  events-IsFed t ms h =
      go (events dispatch_env t ms) (events-Relayable dispatch_env t ms h.relayable)
        (events-Stored dispatch_env t ms h.stored)
    where
      go :
          (r : Round (Task InMemoryCache))
          → Rounds.Holds (λ t'. All Relayable t'.shard.events) r
          → Rounds.Holds (Stored dispatch_env) r
          → Rounds.Holds (λ t'. IsFed t'.shard) r
      go (Dispatch.next t') relayable stored = record { relayable = relayable; stored = stored }
      go (Dispatch.return t') relayable stored = record { relayable = relayable; stored = stored }
      go Dispatch.panic relayable stored = tt

  -- The other tasks keep the shards so.
  abbrev pub Feeds : Arrival InMemoryCache → Type 0
  Feeds a =
      (state : Inner InMemoryCache) → All IsFed state.shards → All IsFed (a.others state).shards

  -- `forward_shard` has begun at such a shard.
  abbrev pub Begun : Option Forwarding → Type 0
  Begun none = Unit {0}
  Begun (some (task, s)) =
      (begin_task : Task InMemoryCache) × IsFed begin_task.shard
      × Reachable task capacity dispatch_env begin_task env s

  abbrev Fed : Connection → Type 0
  Fed x = All IsFed x.world.0.shards × Begun x.forwarding

  pub set_sender-IsFed :
      (s : Shard InMemoryCache) (text : Text) → IsFed s → IsFed (set_sender s text)
  set_sender-IsFed s text h = record { relayable = h.relayable; stored = h.stored }

  start_forwarding-Begun :
      (f : Option Forwarding) (is_ready : Bool) (counted : List Text) (w : World InMemoryCache)
      → All IsFed w.0.shards
      → Begun f
      → Begun (start_forwarding env is_ready counted w f)
  unfolding start_forwarding
  start_forwarding-Begun (some (task, s)) is_ready counted w fed begun = begun
  start_forwarding-Begun none is_ready counted (state, c) fed begun =
      elim (Option-cases c.shard_forward_task) [
        | inl e ↦ rw (e, start_forwarding) tt
        | inr (task, e) ↦ elim (Option-cases (get_elem? state.shards task.shard)) [
          | inl e' ↦ rw (e, start_forwarding, e') tt
          | inr (shard, e') ↦
              rw (e, start_forwarding, e')
                (_, All-get_elem? IsFed state.shards task.shard shard fed e', begins)
        ]
      ]

  at_task :
      (x : Connection) (task : ForwardTask) (s s' : System)
      → x.forwarding ≡ some (task, s)
      → ((begin_task : Task InMemoryCache)
          → Reachable task capacity dispatch_env begin_task env s
          → Reachable task capacity dispatch_env begin_task env s')
      → Fed x
      → Begun (some (task, s'))
  at_task x task s s' e reach (fed, begun) =
      let (begin_task, fed', reached) = subst Begun e begun in
      (begin_task, fed', reach begin_task reached)

  Fed-Keeps : Keeps client_env env dispatch_env capacity Feeds Fed
  Fed-Keeps = record {
    closes = λ x h. h;
    others = λ x a feeds h. (feeds x.world.0 h.0, h.1);
    tells = λ x a msg is_ready counted feeds h.
        Holds-map (handle_message client_env a.sample (a.others x.world.0, x.world.1) msg)
          (λ w fed.
            ((fed, start_forwarding-Begun x.forwarding is_ready counted w fed h.1), (fed, h.1)))
          (handle_message-All IsFed set_sender-IsFed client_env a.sample
            (a.others x.world.0, x.world.1) msg (feeds x.world.0 h.0));
    steps =
        λ x task s e h. (h.0, at_task x task s _ e (λ begin_task reached. forwards s reached) h);
    rounds = λ x task s m t e runs ran h.
        (h.0, at_task x task s _ e (λ begin_task reached. dispatches s m t runs ran reached) h);
    ends = λ x task s m t e runs ran h.
        (h.0, at_task x task s _ e (λ begin_task reached. ends s m t runs ran reached) h);
    commands = λ x task s texts e h.
        (h.0, at_task x task s _ e (λ begin_task reached. commands s texts reached) h);
    greets = λ x h. h;
    fails = λ x h. h;
    takes = λ x chosen more h. h;
  }

  pub take_steps-Begun :
      (state : Inner InMemoryCache) (es : List Event)
      → All IsFed state.shards
      → All (Admits Feeds) es
      → Begun (take_steps client_env env dispatch_env capacity (opened state) es).forwarding
  take_steps-Begun state es fed feeds =
      (take_steps-P client_env env dispatch_env capacity Feeds Fed Fed-Keeps (opened state) es feeds
        (fed, tt)).1
