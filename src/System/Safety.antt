-- ===== src/System/Safety.antt =====
-- The client's task does not panic on what it receives.
use gateway_proxy.Prelude.{
  ℕ, ◌+◌, ◌≡◌, ◌≢◌, some, [], ◌∷◌, inl, inr, Option-cases, if-elim, ltb, length, get_elem?, All,
  All-get_elem?,
}
use gateway_proxy.Cache.Records.{InMemoryCache}
use gateway_proxy.State.{BroadcastMessage}
use gateway_proxy.State.Waiting as Waiting
use gateway_proxy.State.Waiting.{advance_at, returned}
use gateway_proxy.Dispatch as Dispatch
use gateway_proxy.Dispatch.{Incoming, Task, next, return, round, events}
use gateway_proxy.Dispatch.Rounds.{next-Holds, return-Holds}
use gateway_proxy.Dispatch.Relay.{Relayable, events-Relayable}
use gateway_proxy.Server.Client.{ForwardTask}
use gateway_proxy.Server.Forward.{Env, renumber}
use gateway_proxy.Server.Forward.Events.{renumber-total}
use gateway_proxy.System.{
  Place, waiting, preparing, introducing, unsubscribed, crashed, receiving, System, wait,
  send_ready, send_guilds, send_resumed, subscribe, deliver, receive, forward_at, Reachable, begins,
  dispatches, ends, commands, forwards,
}

abbrev Broadcast : Task InMemoryCache → Type 0
Broadcast t = All Relayable t.shard.events

module _ (client : ForwardTask) (capacity : ℕ) where
  abbrev Safe : System → Type 0
  Safe s = All Relayable s.task.shard.events × (s.place ≢ crashed)

  deliver-Safe :
      (s : System) (position : ℕ) (m : BroadcastMessage)
      → All Relayable s.task.shard.events
      → get_elem? s.task.shard.events position ≡ some m
      → Safe (deliver client capacity s position m (renumber m s.seq))
  unfolding deliver
  deliver-Safe s position m h found =
      let (r, e) =
        renumber-total m s.seq (All-get_elem? Relayable s.task.shard.events position m h found).1 in
      rw (e, deliver) (h, λ e. cc)

  receive-Safe : (s : System) (position : ℕ) → Safe s → Safe (receive client capacity s position)
  unfolding receive
  receive-Safe s position h =
      if-elim Safe (ltb (position + capacity) (length s.task.shard.events)) (λ _. (h.0, λ e. cc))
        (λ _. elim (Option-cases (get_elem? s.task.shard.events position)) [
          | inl e ↦ rw e h
          | inr (m, e) ↦ rw e (deliver-Safe s position m h.0 e)
        ])

  wait-Safe : (s : System) (place : Waiting.Place) → Safe s → Safe (wait s place)
  unfolding wait
  wait-Safe s (returned payload) h = (h.0, λ e. cc)
  wait-Safe s place h = (h.0, λ e. cc)

  forward_at-Safe :
      (s : System) (place : Place) → Safe s → Safe (forward_at client capacity s place)
  unfolding forward_at send_ready send_guilds send_resumed subscribe
  forward_at-Safe s (waiting place) h = wait-Safe s (advance_at s.task.shard.ready place) h
  forward_at-Safe s preparing h =
      if-elim Safe client.send_guilds (λ _. (h.0, λ e. cc)) (λ _. (h.0, λ e. cc))
  forward_at-Safe s introducing h = (h.0, λ e. cc)
  forward_at-Safe s unsubscribed h = (h.0, λ e. cc)
  forward_at-Safe s (receiving position) h = receive-Safe s position h
  forward_at-Safe s crashed h = h

  module _ {Event : Type 0} (dispatch_env : Dispatch.Env InMemoryCache Event)
      (begin_task : Task InMemoryCache) (begin_env : Env) where
    pub Reachable-Safe :
        (s : System)
        → All Relayable begin_task.shard.events
        → Reachable client capacity dispatch_env begin_task begin_env s
        → Safe s
    Reachable-Safe _ h begins = (h, λ e. cc)
    Reachable-Safe _ h (dispatches s m t _ e reached) =
        let (relayable, calm) = Reachable-Safe s h reached in
        (
          next-Holds Broadcast dispatch_env s.task m t e
              (events-Relayable dispatch_env s.task (m ∷ []) relayable),
          calm,
        )
    Reachable-Safe _ h (ends s m t _ e reached) =
        let (relayable, calm) = Reachable-Safe s h reached in
        (
          return-Holds Broadcast dispatch_env s.task m t e
              (events-Relayable dispatch_env s.task (m ∷ []) relayable),
          calm,
        )
    Reachable-Safe _ h (commands s texts reached) = Reachable-Safe s h reached
    Reachable-Safe _ h (forwards s reached) = forward_at-Safe s s.place (Reachable-Safe s h reached)

    -- Where the messages that were broadcast before the client began are dispatch events with the number
    -- found in them, the replacement of the sequence numbers in what the client receives does not panic,
    -- whatever Discord sends and however the two tasks interleave, even where the numbers wrap around.
    pub Reachable-not_crashed :
        (s : System)
        → All Relayable begin_task.shard.events
        → Reachable client capacity dispatch_env begin_task begin_env s
        → s.place ≢ crashed
    Reachable-not_crashed s h reached = (Reachable-Safe s h reached).1
