-- ===== src/System/Joining.antt =====
-- How a client that is not parked comes to receive, in steps of its own.
use gateway_proxy.Prelude.{
  ℕ, suc, Bool, ◌≡◌, refl, sym, ap, subst, ltb, true, false, some, if◌then◌else◌, Option-cases, inl,
  inr, length, arith,
}
use gateway_proxy.Model.{JsonObject}
use gateway_proxy.State.Readiness.{Ready, is_ready}
use gateway_proxy.State.Waiting.{advance_at, testing, subscribing, reading, parked, returned}
use gateway_proxy.Server.Client.{ForwardTask}
use gateway_proxy.System.{
  Place, waiting, preparing, introducing, unsubscribed, receiving, System, wait, send_ready,
  send_guilds, send_resumed, subscribe, forward_at,
}
use gateway_proxy.System.Progress.{forward_steps}

-- The steps from the end of the waiting until the client has subscribed.
abbrev pub greeting_left : ForwardTask → ℕ
greeting_left client = suc (if client.send_guilds then 2 else 1)

module _ (client : ForwardTask) (capacity : ℕ) where
  abbrev pub Attends : System → System → Type 0
  Attends s s' = (s'.place ≡ receiving (length s.task.shard.events)) × (s'.received ≡ s.received)

  abbrev pub Joins : System → ℕ → Type 0
  Joins s n = Attends s (forward_steps client capacity n s)

  step-Joins :
      (s : System) (place : Place) (n : ℕ)
      → s.place ≡ place
      → Attends s (forward_steps client capacity n (forward_at client capacity s place))
      → Joins s (suc n)
  step-Joins s place n at h =
      subst (λ x. Attends s (forward_steps client capacity n x))
        (sym (ap (forward_at client capacity s) at)) h

  pub unsubscribed-Joins : (s : System) → s.place ≡ unsubscribed → Joins s 1
  unfolding forward_at subscribe
  unsubscribed-Joins s at = step-Joins s unsubscribed 0 at (refl, refl)

  pub introducing-Joins : (s : System) → s.place ≡ introducing → Joins s 2
  unfolding forward_at send_guilds
  introducing-Joins s at =
      step-Joins s introducing 1 at (unsubscribed-Joins (send_guilds client capacity s) refl)

  greeted-Attends :
      (s : System) (with_guilds : Bool)
      → Attends s (
          forward_steps client capacity
            (if with_guilds then 2 else 1)
            (if with_guilds then send_ready client capacity s else send_resumed client capacity s))
  unfolding send_ready send_resumed
  greeted-Attends s true = introducing-Joins (send_ready client capacity s) refl
  greeted-Attends s false = unsubscribed-Joins (send_resumed client capacity s) refl

  pub preparing-Joins : (s : System) → s.place ≡ preparing → Joins s (greeting_left client)
  unfolding forward_at
  preparing-Joins s at =
      step-Joins s preparing (if client.send_guilds then 2 else 1) at
        (greeted-Attends s client.send_guilds)

  returned-Joins :
      (s : System) (payload : JsonObject)
      → Attends s (forward_steps client capacity (greeting_left client) (wait s (returned payload)))
  unfolding wait
  returned-Joins s payload = preparing-Joins (wait s (returned payload)) refl

  pub returned_at-Joins :
      (s : System) (payload : JsonObject)
      → s.place ≡ waiting (returned payload)
      → Joins s (suc (greeting_left client))
  unfolding forward_at advance_at
  returned_at-Joins s payload at =
      step-Joins s (waiting (returned payload)) (greeting_left client) at (returned-Joins s payload)

  ready-some : (r : Ready) → is_ready r ≡ true → (payload : JsonObject) × (r.inner ≡ some payload)
  unfolding is_ready
  ready-some r h = elim (Option-cases r.inner) [
    | inl e ↦ absurd (ground arith)
    | inr (payload, e) ↦ (payload, e)
  ]

  pub reading-Joins :
      (s : System)
      → is_ready s.task.shard.ready ≡ true
      → s.place ≡ waiting reading
      → Joins s (suc (greeting_left client))
  unfolding forward_at advance_at
  reading-Joins s ready at =
      let (payload, e) = ready-some s.task.shard.ready ready in
      step-Joins s (waiting reading) (greeting_left client) at (
        subst
          (λ place. Attends s (forward_steps client capacity (greeting_left client) (wait s place)))
          (sym (reads payload e)) (returned-Joins s payload))
    where
      reads :
          (payload : JsonObject)
          → s.task.shard.ready.inner ≡ some payload
          → advance_at s.task.shard.ready reading ≡ returned payload
      reads payload e = rw e refl

  pub testing-Joins :
      (s : System)
      → is_ready s.task.shard.ready ≡ true
      → s.place ≡ waiting testing
      → Joins s (suc (suc (greeting_left client)))
  unfolding forward_at advance_at wait
  testing-Joins s ready at = step-Joins s (waiting testing) (suc (greeting_left client)) at (
      subst
        (λ place.
          Attends s (forward_steps client capacity (suc (greeting_left client)) (wait s place)))
        (sym (ap (λ b. if b then reading else subscribing) ready))
        (reading-Joins (wait s reading) ready refl))

  pub parked-Joins :
      (s : System) (seen : ℕ)
      → is_ready s.task.shard.ready ≡ true
      → ltb seen s.task.shard.ready.changed ≡ true
      → s.place ≡ waiting (parked seen)
      → Joins s (suc (suc (suc (greeting_left client))))
  unfolding forward_at advance_at wait
  parked-Joins s seen ready notified at =
      step-Joins s (waiting (parked seen)) (suc (suc (greeting_left client))) at (
        subst
          (λ place.
            Attends s
              (forward_steps client capacity (suc (suc (greeting_left client))) (wait s place)))
          (sym (ap (λ b. if b then testing else parked seen) notified))
          (testing-Joins (wait s testing) ready refl))
