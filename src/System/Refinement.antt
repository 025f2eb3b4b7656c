-- ===== src/System/Refinement.antt =====
-- The steps of the client's task against `forward_shard`.
use gateway_proxy.Prelude.{
  ℕ, ◌+◌, ◌-◌, ◌≡◌, refl, ◌∙◌, ap, true, false, none, some, List, [], ◌∷◌, inl, inr, Option-cases,
  list_laws, subst, length, get_elem?, ltb, if-elim,
}
use gateway_proxy.Text.{Text}
use gateway_proxy.Cache.Records.{InMemoryCache}
use gateway_proxy.State.{BroadcastMessage}
use gateway_proxy.State.Waiting as Waiting
use gateway_proxy.State.Waiting.{advance_at, returned}
use gateway_proxy.Dispatch as Dispatch
use gateway_proxy.Dispatch.{Task}
use gateway_proxy.Server.Client.{ForwardTask}
use gateway_proxy.Server.Forward.{
  ok, lagged, Env, new_ready, greeting, renumber, forward, forward_shard,
}
use gateway_proxy.System.{
  Place, waiting, preparing, introducing, unsubscribed, crashed, receiving, System, wait,
  send_ready, send_guilds, send_resumed, subscribe, deliver, receive, forward_at, Reachable, begins,
  dispatches, ends, commands, forwards,
}
use gateway_proxy.Server.Forward.Continue.{continue, forward_shard-behind, forward_shard-append}

module _ (client : ForwardTask) (capacity : ℕ) where
  -- What is sent before the guilds.
  abbrev ready_part : Env → List Text × ℕ
  ready_part env =
      let (ready_payload, seq) = new_ready env client.session_id client.seq in
      (
        elim (env.ready_to_string ready_payload) [ none ↦ [] | some serialized ↦ serialized ∷ [] ],
        seq,
      )

  abbrev Blank : System → Type 0
  Blank s = (s.queue ≡ []) × (s.seq ≡ client.seq) × (s.received ≡ [])

  abbrev Sent : List Text × ℕ → System → Type 0
  Sent (queue, seq) s = (s.queue ≡ queue) × (s.seq ≡ seq) × (s.received ≡ [])

  -- What the client has been sent is what `forward_shard` sends.
  abbrev RefinesAt : System → Place → Type 0
  RefinesAt s (waiting place) = Sent ([], client.seq) s
  RefinesAt s preparing = Sent ([], client.seq) s
  RefinesAt s introducing = (client.send_guilds ≡ true) × Sent (ready_part s.env) s
  RefinesAt s unsubscribed = Sent (greeting s.env client) s
  RefinesAt s (receiving position) = forward_shard s.env client s.received ≡ some (s.queue, s.seq)
  RefinesAt s crashed = forward_shard s.env client s.received ≡ none

  abbrev Refines : System → Type 0
  Refines s = RefinesAt s s.place

  wait-Refines :
      (s : System) (place : Waiting.Place) → Sent ([], client.seq) s → Refines (wait s place)
  unfolding wait
  wait-Refines s (returned payload) h = h
  wait-Refines s place h = h

  send_ready-Refines :
      (s : System)
      → client.send_guilds ≡ true
      → Sent ([], client.seq) s
      → Refines (send_ready client capacity s)
  unfolding send_ready
  send_ready-Refines s with_guilds (queue, seq, empty) =
      (with_guilds, (rw (queue, seq) refl, rw seq refl, empty))

  send_guilds-Refines :
      (s : System)
      → client.send_guilds ≡ true
      → Sent (ready_part s.env) s
      → Refines (send_guilds client capacity s)
  unfolding send_guilds greeting new_ready
  send_guilds-Refines s with_guilds (queue, seq, empty) =
      (rw (queue, seq, with_guilds) refl, rw (seq, with_guilds) refl, empty)

  send_resumed-Refines :
      (s : System)
      → client.send_guilds ≡ false
      → Sent ([], client.seq) s
      → Refines (send_resumed client capacity s)
  unfolding send_resumed greeting
  send_resumed-Refines s no_guilds (queue, seq, empty) =
      (rw (queue, no_guilds) refl, rw (seq, no_guilds) refl, empty)

  subscribe-Refines :
      (s : System) → Sent (greeting s.env client) s → Refines (subscribe client capacity s)
  unfolding subscribe forward
  subscribe-Refines s (queue, seq, empty) =
      rw (empty, queue, seq) (forward_shard-behind s.env client [] ∙ simp list_laws)

  deliver-Refines :
      (s : System) (position : ℕ) (m : BroadcastMessage)
      → forward_shard s.env client s.received ≡ some (s.queue, s.seq)
      → Refines (deliver client capacity s position m (renumber m s.seq))
  unfolding deliver forward
  deliver-Refines s position m h =
      let next =
        forward_shard-append s.env client s.received (ok m ∷ []) ∙ ap (continue (ok m ∷ [])) h in
      elim (Option-cases (renumber m s.seq)) [
        | inl e ↦ rw (e, deliver) (next ∙ rw (e, forward) refl)
        | inr ((payload, seq), e) ↦ rw (e, deliver) (next ∙ rw (e, forward) refl)
      ]

  receive-Refines :
      (s : System) (position : ℕ)
      → Refines s
      → forward_shard s.env client s.received ≡ some (s.queue, s.seq)
      → Refines (receive client capacity s position)
  unfolding receive forward
  receive-Refines s position kept h =
      let behind_by = lagged (length s.task.shard.events - capacity - position) ∷ [] in
      if-elim Refines (ltb (position + capacity) (length s.task.shard.events))
        (λ _.
          forward_shard-append s.env client s.received behind_by
          ∙ (ap (continue behind_by) h ∙ simp list_laws))
        (λ _. elim (Option-cases (get_elem? s.task.shard.events position)) [
          | inl e ↦ rw e kept
          | inr (m, e) ↦ rw e (deliver-Refines s position m h)
        ])

  forward_at-Refines :
      (s : System) (place : Place)
      → Refines s
      → RefinesAt s place
      → Refines (forward_at client capacity s place)
  unfolding forward_at
  forward_at-Refines s (waiting place) kept h =
      wait-Refines s (advance_at s.task.shard.ready place) h
  forward_at-Refines s preparing kept h =
      if-elim Refines client.send_guilds (λ e. send_ready-Refines s e h)
        (λ e. send_resumed-Refines s e h)
  forward_at-Refines s introducing kept h = send_guilds-Refines s h.0 h.1
  forward_at-Refines s unsubscribed kept h = subscribe-Refines s h
  forward_at-Refines s (receiving position) kept h = receive-Refines s position kept h
  forward_at-Refines s crashed kept h = kept

  module _ {Event : Type 0} (dispatch_env : Dispatch.Env InMemoryCache Event)
      (begin_task : Task InMemoryCache) (begin_env : Env) where
    Reachable-Refines :
        (s : System) → Reachable client capacity dispatch_env begin_task begin_env s → Refines s
    Reachable-Refines _ begins = (refl, refl, refl)
    Reachable-Refines _ (dispatches s m t _ _ reached) = Reachable-Refines s reached
    Reachable-Refines _ (ends s m t _ _ reached) = Reachable-Refines s reached
    Reachable-Refines _ (commands s texts reached) = Reachable-Refines s reached
    Reachable-Refines _ (forwards s reached) =
        forward_at-Refines s s.place (Reachable-Refines s reached) (Reachable-Refines s reached)

    -- However the task of the shard and the one of the client interleave, once the client receives it
    -- has been sent exactly what `forward_shard` sends for the data that it has read and for what it
    -- has received so far.
    pub Reachable-forward_shard :
        (s : System) (position : ℕ)
        → Reachable client capacity dispatch_env begin_task begin_env s
        → s.place ≡ receiving position
        → forward_shard s.env client s.received ≡ some (s.queue, s.seq)
    Reachable-forward_shard s position reached at =
        subst (RefinesAt s) at (Reachable-Refines s reached)
