-- ===== src/System/Sharing.antt =====
-- What the client's task shares with the one of the shard.
use gateway_proxy.Prelude.{
  ℕ, ◌+◌, ◌≡◌, refl, inl, inr, Option-cases, if-elim, ltb, length, get_elem?,
}
use gateway_proxy.State.{BroadcastMessage}
use gateway_proxy.State.Waiting as Waiting
use gateway_proxy.State.Waiting.{advance_at, testing, subscribing, reading, parked, returned}
use gateway_proxy.Server.Client.{ForwardTask}
use gateway_proxy.Server.Forward.{renumber}
use gateway_proxy.System.{
  Place, waiting, preparing, introducing, unsubscribed, crashed, receiving, System, wait,
  send_ready, send_guilds, send_resumed, subscribe, deliver, receive, forward_at,
}

module _ (client : ForwardTask) (capacity : ℕ) where
  abbrev Same : System → System → Type 0
  Same s s' = (s'.task ≡ s.task) × (s'.running ≡ s.running)

  wait-Same : (s : System) (place : Waiting.Place) → Same s (wait s place)
  unfolding wait
  wait-Same s (returned payload) = (refl, refl)
  wait-Same s testing = (refl, refl)
  wait-Same s subscribing = (refl, refl)
  wait-Same s reading = (refl, refl)
  wait-Same s (parked seen) = (refl, refl)
  wait-Same s Waiting.panicked = (refl, refl)

  deliver-Same :
      (s : System) (position : ℕ) (m : BroadcastMessage)
      → Same s (deliver client capacity s position m (renumber m s.seq))
  unfolding deliver
  deliver-Same s position m = elim (Option-cases (renumber m s.seq)) [
    | inl e ↦ rw (e, deliver) (refl, refl)
    | inr (_, e) ↦ rw (e, deliver) (refl, refl)
  ]

  -- The client's task does not change the one of the shard, nor end it.
  pub forward_at-Same : (s : System) (place : Place) → Same s (forward_at client capacity s place)
  unfolding forward_at send_ready send_guilds send_resumed subscribe receive
  forward_at-Same s (waiting place) = wait-Same s (advance_at s.task.shard.ready place)
  forward_at-Same s preparing =
      if-elim (Same s) client.send_guilds (λ _. (refl, refl)) (λ _. (refl, refl))
  forward_at-Same s introducing = (refl, refl)
  forward_at-Same s unsubscribed = (refl, refl)
  forward_at-Same s (receiving position) =
      if-elim (Same s) (ltb (position + capacity) (length s.task.shard.events)) (λ _. (refl, refl))
        (λ _. elim (Option-cases (get_elem? s.task.shard.events position)) [
          | inl e ↦ rw e (refl, refl)
          | inr (m, e) ↦ rw e (deliver-Same s position m)
        ])
  forward_at-Same s crashed = (refl, refl)
