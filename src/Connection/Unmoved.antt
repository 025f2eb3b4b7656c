-- ===== src/Connection/Unmoved.antt =====
-- A client for which `forward_shard` was not spawned, while it sends nothing.
use gateway_proxy.Prelude.{
  ℕ, ◌≡◌, refl, sym, subst, ap, ◌∙◌, Bool, Option, true, false, not, some, none, List, [], ◌∷◌,
  ◌++◌, if-elim, All,
}
use gateway_proxy.Cache.Records.{InMemoryCache}
use gateway_proxy.Dispatch as Dispatch
use gateway_proxy.Server.Client as Client
use gateway_proxy.Server.Client.{
  Client, Message, World, Arrival, write, invalid_session, refuses, handle_message, handle_payload,
  handle_op, handle_resume, resume_session,
}
use gateway_proxy.Server.Forward.{Env}
use gateway_proxy.Connection.{
  Connection, Forwarding, Event, client_sends, discord_sends, clients_command, command_step,
  shard_forwards, sink_sends, sink_fails, sink_step, send_next, shard_step, discord_step, open_step,
  take_step, take_steps,
}
use gateway_proxy.Connection.Merging.{Runs}

-- No event of the client.
abbrev pub Quiet : Event → Type 0
Quiet (client_sends _ _ _) = ⊥
Quiet _ = Unit {0}

module _ {Event' : Type 0} (client_env : Client.Env) (env : Env)
    (dispatch_env : Dispatch.Env InMemoryCache Event') (capacity : ℕ) where
  pub take_steps-append :
      (x : Connection) (es es' : List Event)
      → take_steps client_env env dispatch_env capacity x (es ++ es')
        ≡ take_steps client_env env dispatch_env capacity
            (take_steps client_env env dispatch_env capacity x es)
            es'
  unfolding take_steps
  take_steps-append x [] es' = refl
  take_steps-append x (e ∷ es) es' =
      take_steps-append (take_step client_env env dispatch_env capacity x e) es es'

  -- All but what the sink has done is as it was.
  pub record Unmoved (x y : Connection) : Type 0 where
    pub world : y.world ≡ x.world
    pub forwarding : y.forwarding ≡ x.forwarding
    pub queue : y.queue ≡ x.queue
    pub taken : y.taken ≡ x.taken
    pub is_open : y.is_open ≡ x.is_open

  Unmoved-refl :
      (x : Connection) (greeted sending : Bool)
      → Unmoved x (record x { greeted = greeted; sending = sending })
  Unmoved-refl x greeted sending = record {
    world = refl;
    forwarding = refl;
    queue = refl;
    taken = refl;
    is_open = refl;
  }

  sink_step-Unmoved : (x : Connection) → x.world.1.compress_tx ≡ true → Unmoved x (sink_step x)
  unfolding sink_step send_next
  sink_step-Unmoved x pending =
      if-elim (Unmoved x) (not x.sending) (λ _. Unmoved-refl x x.greeted x.sending)
        (λ _.
          if-elim (Unmoved x) x.greeted
            (λ _.
              if-elim (Unmoved x) x.world.1.compress_tx (λ _. Unmoved-refl x x.greeted x.sending)
                (λ e. absurd cc))
            (λ _. Unmoved-refl x true x.sending))

  open_step-Unmoved :
      (x : Connection) (e : Event)
      → x.forwarding ≡ none
      → x.world.1.compress_tx ≡ true
      → Quiet e
      → Unmoved x (open_step client_env env dispatch_env capacity x e)
  unfolding open_step shard_step discord_step command_step
  open_step-Unmoved x (client_sends _ _ _) idle pending quiet = absurd quiet
  open_step-Unmoved x (discord_sends m) idle pending quiet =
      subst (λ f. Unmoved x (discord_step client_env env dispatch_env capacity x f m)) (sym idle)
        (Unmoved-refl x x.greeted x.sending)
  open_step-Unmoved x (clients_command texts) idle pending quiet =
      subst (λ f. Unmoved x (command_step x f texts)) (sym idle)
        (Unmoved-refl x x.greeted x.sending)
  open_step-Unmoved x shard_forwards idle pending quiet =
      subst (λ f. Unmoved x (shard_step client_env env dispatch_env capacity x f)) (sym idle)
        (Unmoved-refl x x.greeted x.sending)
  open_step-Unmoved x sink_fails idle pending quiet = Unmoved-refl x x.greeted false
  open_step-Unmoved x sink_sends idle pending quiet = sink_step-Unmoved x pending

  pub take_steps-Unmoved :
      (x : Connection) (es : List Event)
      → x.forwarding ≡ none
      → x.world.1.compress_tx ≡ true
      → All Quiet es
      → Unmoved x (take_steps client_env env dispatch_env capacity x es)
  unfolding take_steps take_step
  take_steps-Unmoved x [] idle pending quiet = Unmoved-refl x x.greeted x.sending
  take_steps-Unmoved x (e ∷ es) idle pending quiet =
      let first =
        if-elim (Unmoved x) x.is_open (λ _. open_step-Unmoved x e idle pending quiet.0)
          (λ _. Unmoved-refl x x.greeted x.sending) in
      let rest =
        take_steps-Unmoved (take_step client_env env dispatch_env capacity x e) es
          (first.forwarding ∙ idle) (ap (λ w. w.1.compress_tx) first.world ∙ pending) quiet.1 in
      record {
        world = rest.world ∙ first.world;
        forwarding = rest.forwarding ∙ first.forwarding;
        queue = rest.queue ∙ first.queue;
        taken = rest.taken ∙ first.taken;
        is_open = rest.is_open ∙ first.is_open;
      }

  pub idle-forwarding :
      (f : Option Forwarding) (c : Client)
      → Runs client_env env dispatch_env capacity f c
      → c.compress_tx ≡ true
      → f ≡ none
  idle-forwarding none c runs pending = refl
  idle-forwarding (some (task, s)) c ((compress, started), reached) pending =
      absurd (cc (started.0))
