-- ===== src/System/Positions.antt =====
-- Which of the broadcast messages a client receives.
use gateway_proxy.Prelude.{
  append-nil, ℕ, ◌+◌, ◌-◌, ◌≤◌, ◌≡◌, refl, sym, subst, true, false, some, List, [], ◌++◌, arith,
  inl, inr, Option-cases, list_laws, length, get_elem?, get_elem?-below, ltb, tests, if-elim,
}
use gateway_proxy.Cache.Records.{InMemoryCache}
use gateway_proxy.State.{BroadcastMessage}
use gateway_proxy.State.Waiting as Waiting
use gateway_proxy.State.Waiting.{advance_at, returned}
use gateway_proxy.Dispatch as Dispatch
use gateway_proxy.Dispatch.{Incoming, text, close, error, Round, Task, next, return, round}
use gateway_proxy.Dispatch.Rounds.{Holds, Holds-map}
use gateway_proxy.Dispatch.Live.{sent, handle_text-Step}
use gateway_proxy.Server.Client.{ForwardTask}
use gateway_proxy.Server.Forward.{ok, lagged, Env, renumber}
use gateway_proxy.System.Replays.{Replays, position_after, At, At-grow, At-append, Replays-grow}
use gateway_proxy.System.{
  Place, waiting, preparing, introducing, unsubscribed, crashed, receiving, System, wait,
  send_ready, send_guilds, send_resumed, subscribe, deliver, receive, forward_at, Reachable, begins,
  dispatches, ends, commands, forwards, with_sender,
}

abbrev Grown : List BroadcastMessage → Task InMemoryCache → Type 0
Grown events t = (more : List BroadcastMessage) × (t.shard.events ≡ events ++ more)

-- A round only adds messages at the end.
round-Grown :
    {Event : Type 0} (env : Dispatch.Env InMemoryCache Event) (t : Task InMemoryCache)
    (m : Incoming)
    → Holds (Grown t.shard.events) (round env t m)
unfolding round
round-Grown env t (text payload) =
    Holds-map {Q = Grown t.shard.events} (λ t' step. (sent env t.is_ready payload, step.1)) _
      (handle_text-Step env t payload)
round-Grown env t (close true) = ([], simp list_laws)
round-Grown env t (close false) = ([], simp list_laws)
round-Grown env t error = ([], simp list_laws)
round-Grown env t Dispatch.closed = ([], simp list_laws)

module _ (client : ForwardTask) (capacity : ℕ) where
  abbrev PositionedAt : System → Place → Type 0
  PositionedAt s (receiving position) = At s.task.shard.events s.subscribed s.received position
  PositionedAt s crashed = Replays s.task.shard.events s.subscribed s.received
  PositionedAt s place = s.received ≡ []

  abbrev pub Positioned : System → Type 0
  Positioned s = PositionedAt s s.place

  deliver-Positioned :
      (s : System) (position : ℕ) (m : BroadcastMessage)
      → At s.task.shard.events s.subscribed s.received position
      → get_elem? s.task.shard.events position ≡ some m
      → Positioned (deliver client capacity s position m (renumber m s.seq))
  unfolding deliver
  deliver-Positioned s position m h found =
      let later =
        At-append s.task.shard.events s.subscribed s.received position (ok m) (position + 1) h
          ((found, tt), refl, get_elem?-below s.task.shard.events position m found) in
      elim (Option-cases (renumber m s.seq)) [
        | inl e ↦ rw (e, deliver) later.0
        | inr (_, e) ↦ rw (e, deliver) later
      ]

  receive-Positioned :
      (s : System) (position : ℕ)
      → Positioned s
      → At s.task.shard.events s.subscribed s.received position
      → Positioned (receive client capacity s position)
  unfolding receive
  receive-Positioned s position kept h =
      let total = length s.task.shard.events in
      if-elim Positioned (ltb (position + capacity) total)
        (λ behind.
          At-append s.task.shard.events s.subscribed s.received position
            (lagged (total - capacity - position)) (total - capacity) h
            ((omega tests, tt), omega tests, omega tests))
        (λ _. elim (Option-cases (get_elem? s.task.shard.events position)) [
          | inl e ↦ rw e kept
          | inr (m, e) ↦ rw e (deliver-Positioned s position m h e)
        ])

  wait-Positioned :
      (s : System) (place : Waiting.Place) → s.received ≡ [] → Positioned (wait s place)
  unfolding wait
  wait-Positioned s (returned payload) h = h
  wait-Positioned s place h = h

  subscribe-Positioned : (s : System) → s.received ≡ [] → Positioned (subscribe client capacity s)
  unfolding subscribe
  subscribe-Positioned s h = rw h (tt, refl, omega arith)

  forward_at-Positioned :
      (s : System) (place : Place)
      → Positioned s
      → PositionedAt s place
      → Positioned (forward_at client capacity s place)
  unfolding forward_at send_ready send_guilds send_resumed
  forward_at-Positioned s (waiting place) kept h =
      wait-Positioned s (advance_at s.task.shard.ready place) h
  forward_at-Positioned s preparing kept h = if-elim Positioned client.send_guilds (λ _. h) (λ _. h)
  forward_at-Positioned s introducing kept h = h
  forward_at-Positioned s unsubscribed kept h = subscribe-Positioned s h
  forward_at-Positioned s (receiving position) kept h = receive-Positioned s position kept h
  forward_at-Positioned s crashed kept h = kept

  PositionedAt-grow :
      (s : System) (t : Task InMemoryCache) (place : Place)
      → Grown s.task.shard.events t
      → PositionedAt s place
      → PositionedAt (record s { task = t }) place
  PositionedAt-grow s t (receiving position) (more, e) h =
      subst (λ events. At events s.subscribed s.received position) (sym e)
        (At-grow s.task.shard.events more s.subscribed s.received position h)
  PositionedAt-grow s t crashed (more, e) h =
      subst (λ events. Replays events s.subscribed s.received) (sym e)
        (Replays-grow s.task.shard.events more s.subscribed s.received h)
  PositionedAt-grow s t (waiting place) grown h = h
  PositionedAt-grow s t preparing grown h = h
  PositionedAt-grow s t introducing grown h = h
  PositionedAt-grow s t unsubscribed grown h = h

  module _ {Event : Type 0} (dispatch_env : Dispatch.Env InMemoryCache Event)
      (begin_task : Task InMemoryCache) (begin_env : Env) where
    pub Reachable-Positioned :
        (s : System) → Reachable client capacity dispatch_env begin_task begin_env s → Positioned s
    Reachable-Positioned _ begins = refl
    Reachable-Positioned _ (dispatches s m t _ e reached) =
        PositionedAt-grow s t s.place
          (subst (Holds (Grown s.task.shard.events)) e (round-Grown dispatch_env s.task m))
          (Reachable-Positioned s reached)
    Reachable-Positioned _ (ends s m t _ e reached) =
        PositionedAt-grow s t s.place
          (subst (Holds (Grown s.task.shard.events)) e (round-Grown dispatch_env s.task m))
          (Reachable-Positioned s reached)
    Reachable-Positioned _ (commands s texts reached) =
        PositionedAt-grow s (with_sender s.task texts) s.place
          ([], sym (append-nil s.task.shard.events)) (Reachable-Positioned s reached)
    Reachable-Positioned _ (forwards s reached) =
        forward_at-Positioned s s.place (Reachable-Positioned s reached)
          (Reachable-Positioned s reached)

    -- However the two tasks interleave, a client receives from the messages that were broadcast after
    -- it has subscribed: each message is the one at its position, a lag skips at least one, and its
    -- position is never beyond what was broadcast.
    pub Reachable-Replays :
        (s : System) (position : ℕ)
        → Reachable client capacity dispatch_env begin_task begin_env s
        → s.place ≡ receiving position
        → Replays s.task.shard.events s.subscribed s.received
          × (position_after s.subscribed s.received ≡ position)
          × (position ≤ length s.task.shard.events)
    Reachable-Replays s position reached at =
        subst (PositionedAt s) at (Reachable-Positioned s reached)
