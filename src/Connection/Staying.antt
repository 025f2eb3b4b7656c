-- ===== src/Connection/Staying.antt =====
-- The steps after which a connection is still open.
use gateway_proxy.Prelude.{
  ℕ, ◌≡◌, refl, sym, ap, ◌∙◌, subst, Bool, true, false, not, Option, none, some, List, [], ◌∷◌, ltb,
  length, if◌then◌else◌, if-elim, Bool-cases, inl, inr,
}
use gateway_proxy.Text.{Text}
use gateway_proxy.Cache.Records.{InMemoryCache}
use gateway_proxy.State.Waiting as Waiting
use gateway_proxy.Dispatch as Dispatch
use gateway_proxy.Dispatch.{Incoming, Task, Round, next, return, panic, round}
use gateway_proxy.Server.Client as Client
use gateway_proxy.Server.Client.{ForwardTask, World, Message, Arrival, Outcome, handle_message}
use gateway_proxy.Server.Forward.{Env}
use gateway_proxy.System.{Place, waiting, crashed, System, forward_step}
use gateway_proxy.Connection.{
  Connection, Forwarding, Event, client_sends, discord_sends, clients_command, command_step,
  shard_forwards, sink_sends, sink_fails, settle, forwarded, dispatched, sink_step, send_next,
  client_step, shard_step, discord_step, open_step, take_step, take_steps,
}
use gateway_proxy.Connection.Steps.{told, with_step}

module _ {Event' : Type 0} (client_env : Client.Env) (env : Env)
    (dispatch_env : Dispatch.Env InMemoryCache Event') (capacity : ℕ) where
  -- What led to a connection that is open.
  abbrev pub Led : Connection → Event → Connection → Type 0
  Led x (client_sends a is_ready counted) y =
      (msg : Message) × (w : World InMemoryCache) × (a.msg ≡ some msg)
      × (handle_message client_env a.sample (a.others x.world.0, x.world.1) msg ≡ Client.next w)
      × (y ≡ told env is_ready counted x w)
  Led x _ y = y.world ≡ x.world

  settle-Led :
      (x : Connection) (a : Arrival InMemoryCache) (is_ready : Bool) (counted : List Text)
      (msg : Message) (o : Outcome (World InMemoryCache))
      → a.msg ≡ some msg
      → handle_message client_env a.sample (a.others x.world.0, x.world.1) msg ≡ o
      → (settle env is_ready counted x o).is_open ≡ true
      → Led x (client_sends a is_ready counted) (settle env is_ready counted x o)
  unfolding settle
  settle-Led x a is_ready counted msg (Client.next w) at led is_open = (msg, w, at, led, refl)
  settle-Led x a is_ready counted msg (Client.disconnect w) at led is_open = absurd cc
  settle-Led x a is_ready counted msg Client.panic at led is_open = absurd cc
  settle-Led x a is_ready counted msg Client.undefined at led is_open = absurd cc

  client_step-Led :
      (x : Connection) (a : Arrival InMemoryCache) (is_ready : Bool) (counted : List Text)
      (msg : Option Message)
      → a.msg ≡ msg
      → (client_step client_env env dispatch_env capacity x a is_ready counted msg).is_open ≡ true
      → Led x
          (client_sends a is_ready counted)
          (client_step client_env env dispatch_env capacity x a is_ready counted msg)
  unfolding client_step
  client_step-Led x a is_ready counted none at is_open = absurd cc
  client_step-Led x a is_ready counted (some msg) at is_open =
      settle-Led x a is_ready counted msg _ at refl is_open

  forwarded-world : (x : Connection) (place : Place) → (forwarded x place).world ≡ x.world
  unfolding forwarded
  forwarded-world x crashed = refl
  forwarded-world x (waiting Waiting.panicked) = refl
  forwarded-world x _ = refl

  shard_step-world :
      (x : Connection) (f : Option Forwarding)
      → (shard_step client_env env dispatch_env capacity x f).world ≡ x.world
  unfolding shard_step
  shard_step-world x none = refl
  shard_step-world x (some (task, s)) =
      forwarded-world (with_step x task s (forward_step task capacity s)) _

  dispatched-world :
      (x : Connection) (task : ForwardTask) (s : System) (r : Round (Task InMemoryCache))
      → (dispatched x task s r).world ≡ x.world
  unfolding dispatched
  dispatched-world x task s (next t) = refl
  dispatched-world x task s (return t) = refl
  dispatched-world x task s panic = refl

  discord_step-world :
      (x : Connection) (f : Option Forwarding) (m : Incoming)
      → (discord_step client_env env dispatch_env capacity x f m).world ≡ x.world
  unfolding discord_step
  discord_step-world x none m = refl
  discord_step-world x (some (task, s)) m =
      if-elim (λ (y : Connection). y.world ≡ x.world) s.running
        (λ _. dispatched-world x task s (round dispatch_env s.task m)) (λ _. refl)

  command_step-world :
      (x : Connection) (f : Option Forwarding) (texts : List Text)
      → (command_step x f texts).world ≡ x.world
  unfolding command_step
  command_step-world x none texts = refl
  command_step-world x (some (task, s)) texts = refl

  sink_step-world : (x : Connection) → (sink_step x).world ≡ x.world
  unfolding sink_step send_next
  sink_step-world x =
      let Same = λ (y : Connection). y.world ≡ x.world in
      if-elim Same (not x.sending) (λ _. refl)
        (λ _.
          if-elim Same x.greeted
            (λ _.
              if-elim Same x.world.1.compress_tx (λ _. refl)
                (λ _. if-elim Same (ltb x.taken (length x.queue)) (λ _. refl) (λ _. refl)))
            (λ _. refl))

  open_step-Led :
      (x : Connection) (e : Event)
      → (open_step client_env env dispatch_env capacity x e).is_open ≡ true
      → Led x e (open_step client_env env dispatch_env capacity x e)
  unfolding open_step
  open_step-Led x (client_sends a is_ready counted) is_open =
      client_step-Led x a is_ready counted a.msg refl is_open
  open_step-Led x (discord_sends m) is_open = discord_step-world x x.forwarding m
  open_step-Led x (clients_command texts) is_open = command_step-world x x.forwarding texts
  open_step-Led x shard_forwards is_open = shard_step-world x x.forwarding
  open_step-Led x sink_sends is_open = sink_step-world x
  open_step-Led x sink_fails is_open = refl

  -- Nothing happens to a connection that is closed.
  pub take_step-Led :
      (x : Connection) (e : Event)
      → (take_step client_env env dispatch_env capacity x e).is_open ≡ true
      → Led x e (take_step client_env env dispatch_env capacity x e)
  unfolding take_step
  take_step-Led x e is_open = elim (Bool-cases x.is_open) [
    | inl was_open ↦
        let same =
          ap (λ b. if b then open_step client_env env dispatch_env capacity x e else x) was_open in
        subst (Led x e) (sym same) (open_step-Led x e (sym (ap (λ y. y.is_open) same) ∙ is_open))
    | inr was_closed ↦
        let same =
          ap (λ b. if b then open_step client_env env dispatch_env capacity x e else x)
            was_closed in
        absurd (cc (sym (ap (λ y. y.is_open) same) ∙ is_open))
  ]

  take_steps-closed :
      (x : Connection) (es : List Event)
      → x.is_open ≡ false
      → (take_steps client_env env dispatch_env capacity x es).is_open ≡ false
  unfolding take_steps take_step
  take_steps-closed x [] h = h
  take_steps-closed x (e ∷ es) h =
      take_steps-closed (take_step client_env env dispatch_env capacity x e) es (
        ap (λ b. (if b then open_step client_env env dispatch_env capacity x e else x).is_open) h
        ∙ h)

  pub take_steps-opened :
      (x : Connection) (es : List Event)
      → (take_steps client_env env dispatch_env capacity x es).is_open ≡ true
      → x.is_open ≡ true
  take_steps-opened x es h = elim (Bool-cases x.is_open) [
    | inl was_open ↦ was_open
    | inr was_closed ↦ absurd (cc (take_steps-closed x es was_closed))
  ]
