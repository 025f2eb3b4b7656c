-- ===== src/System/Service.antt =====
-- How many steps of its own a client needs until it has received everything.
use gateway_proxy.Prelude.{
  ℕ, zero, suc, ◌+◌, ◌-◌, ◌≤◌, ◌≡◌, refl, sym, ◌∙◌, ltb, true, some, List, [], ◌++◌, length,
  append-nil, arith, All,
}
use gateway_proxy.Cache.Records.{InMemoryCache}
use gateway_proxy.State.Readiness.{is_ready}
use gateway_proxy.State.Waiting as Waiting
use gateway_proxy.State.Waiting.{advance_at, testing, subscribing, reading, parked, returned}
use gateway_proxy.Dispatch as Dispatch
use gateway_proxy.Dispatch.{Task}
use gateway_proxy.Dispatch.Relay.{Relayable}
use gateway_proxy.Server.Client.{ForwardTask}
use gateway_proxy.Server.Forward.{Received, Env, forward_shard}
use gateway_proxy.Server.Forward.Events.{received_after}
use gateway_proxy.System.{
  Place, waiting, preparing, introducing, unsubscribed, crashed, receiving, System, forward_step,
  Reachable, forwards,
}
use gateway_proxy.System.Refinement.{Reachable-forward_shard}
use gateway_proxy.System.Progress.{forward_steps, Reachable-catches_up}
use gateway_proxy.System.Joining.{
  greeting_left, Joins, unsubscribed-Joins, introducing-Joins, preparing-Joins, returned_at-Joins,
  reading-Joins, testing-Joins, parked-Joins,
}

-- The client is not lost: a READY is there if it waits for one, it is not about to be parked and has
-- been notified if it is, it has not panicked, and the channel retains what it has not received.
abbrev pub IsServed : ℕ → System → Place → Type 0
IsServed capacity s (waiting (parked seen)) =
    (is_ready s.task.shard.ready ≡ true) × (ltb seen s.task.shard.ready.changed ≡ true)
IsServed capacity s (waiting subscribing) = ⊥
IsServed capacity s (waiting Waiting.panicked) = ⊥
IsServed capacity s (waiting (returned payload)) = Unit {0}
IsServed capacity s (waiting testing) = is_ready s.task.shard.ready ≡ true
IsServed capacity s (waiting reading) = is_ready s.task.shard.ready ≡ true
IsServed capacity s (receiving position) = length s.task.shard.events ≤ position + capacity
IsServed capacity s crashed = ⊥
IsServed capacity s _ = Unit {0}

-- The steps until everything is received.
abbrev pub steps_left : ForwardTask → System → Place → ℕ
steps_left client s (waiting (parked seen)) = suc (suc (suc (greeting_left client)))
steps_left client s (waiting testing) = suc (suc (greeting_left client))
steps_left client s (waiting _) = suc (greeting_left client)
steps_left client s preparing = greeting_left client
steps_left client s introducing = 2
steps_left client s unsubscribed = 1
steps_left client s (receiving position) = length s.task.shard.events - position
steps_left client s crashed = 0

-- What there is to receive.
abbrev pub unread : System → Place → List Received
unread s (receiving position) = received_after position s.task.shard.events
unread s _ = []

module _ (client : ForwardTask) (capacity : ℕ) where
  steps_left-bounded :
      (s : System) (place : Place) → steps_left client s place ≤ 6 + length s.task.shard.events
  steps_left-bounded s (waiting (parked seen)) = ground arith
  steps_left-bounded s (waiting testing) = ground arith
  steps_left-bounded s (waiting _) = ground arith
  steps_left-bounded s preparing = ground arith
  steps_left-bounded s introducing = omega arith
  steps_left-bounded s unsubscribed = omega arith
  steps_left-bounded s (receiving position) = omega arith
  steps_left-bounded s crashed = omega arith

  joined :
      (s : System) (n : ℕ)
      → Joins client capacity s n
      → let s' = forward_steps client capacity n s in
        (s'.place ≡ receiving (length s.task.shard.events)) × (s'.received ≡ s.received ++ [])
  joined s n (place, received) = (place, received ∙ sym (append-nil s.received))

  module _ {Event : Type 0} (dispatch_env : Dispatch.Env InMemoryCache Event)
      (begin_task : Task InMemoryCache) (begin_env : Env) where
    serves :
        (s : System) (place : Place)
        → All Relayable begin_task.shard.events
        → Reachable client capacity dispatch_env begin_task begin_env s
        → s.place ≡ place
        → IsServed capacity s place
        → let s' = forward_steps client capacity (steps_left client s place) s in
          (s'.place ≡ receiving (length s.task.shard.events))
          × (s'.received ≡ s.received ++ unread s place)
    serves s (receiving position) h reached at served =
        Reachable-catches_up client capacity dispatch_env begin_task begin_env s position h reached
          at served
    serves s (waiting (parked seen)) h reached at (ready, notified) =
        joined s (suc (suc (suc (greeting_left client))))
          (parked-Joins client capacity s seen ready notified at)
    serves s (waiting subscribing) h reached at served = absurd served
    serves s (waiting Waiting.panicked) h reached at served = absurd served
    serves s (waiting (returned payload)) h reached at served =
        joined s (suc (greeting_left client)) (returned_at-Joins client capacity s payload at)
    serves s (waiting testing) h reached at served =
        joined s (suc (suc (greeting_left client))) (testing-Joins client capacity s served at)
    serves s (waiting reading) h reached at served =
        joined s (suc (greeting_left client)) (reading-Joins client capacity s served at)
    serves s preparing h reached at served =
        joined s (greeting_left client) (preparing-Joins client capacity s at)
    serves s introducing h reached at served = joined s 2 (introducing-Joins client capacity s at)
    serves s unsubscribed h reached at served = joined s 1 (unsubscribed-Joins client capacity s at)
    serves s crashed h reached at served = absurd served

    forward_steps-Reachable :
        (n : ℕ) (s : System)
        → Reachable client capacity dispatch_env begin_task begin_env s
        → Reachable client capacity dispatch_env begin_task begin_env
            (forward_steps client capacity n s)
    forward_steps-Reachable zero s reached = reached
    forward_steps-Reachable (suc n) s reached =
        forward_steps-Reachable n (forward_step client capacity s) (forwards s reached)

    -- Where the messages that were broadcast before the client began are dispatch events with the number
    -- found in them, a client that is not lost (where it waits, there is a READY, it is not about to be
    -- parked, and it has been notified if it is; it has not panicked, and is no more messages behind
    -- than the channel retains) has, after at most six steps of its own in a row and one for each message,
    -- received all that it had not, in order and without a lag, and been sent what forward_shard sends.
    pub Reachable-forward_steps :
        (s : System)
        → All Relayable begin_task.shard.events
        → Reachable client capacity dispatch_env begin_task begin_env s
        → IsServed capacity s s.place
        → let s' = forward_steps client capacity (steps_left client s s.place) s in
          (s'.place ≡ receiving (length s.task.shard.events))
          × (s'.received ≡ s.received ++ unread s s.place)
          × (forward_shard s'.env client s'.received ≡ some (s'.queue, s'.seq))
          × (steps_left client s s.place ≤ 6 + length s.task.shard.events)
    Reachable-forward_steps s h reached served =
        let (place, received) = serves s s.place h reached refl served in
        let ran =
          Reachable-forward_shard client capacity dispatch_env begin_task begin_env
            (forward_steps client capacity (steps_left client s s.place) s)
            (length s.task.shard.events)
            (forward_steps-Reachable (steps_left client s s.place) s reached) place in
        (place, received, ran, steps_left-bounded s s.place)
