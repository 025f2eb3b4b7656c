-- ===== src/System/Progress.antt =====
-- A client that keeps up with the shard.
use gateway_proxy.Prelude.{
  ℕ, zero, suc, ◌+◌, ◌-◌, ◌≤◌, ◌≡◌, refl, sym, ◌∙◌, ap, subst, none, some, List, [], ◌∷◌, ◌++◌, map,
  arith, inl, inr, Option-cases, append-nil, append_assoc, length, get_elem?, le→ltb,
  get_elem?-eq-none_iff, All, All-get_elem?,
}
use mathlib.Core.Option
use gateway_proxy.Text.{Text}
use gateway_proxy.Cache.Records.{InMemoryCache}
use gateway_proxy.Deserializer.{find_sequence}
use gateway_proxy.State.{BroadcastMessage}
use gateway_proxy.Dispatch as Dispatch
use gateway_proxy.Dispatch.{Task}
use gateway_proxy.Dispatch.Relay.{Relayable}
use gateway_proxy.Server.Client.{ForwardTask}
use gateway_proxy.Server.Forward.{Received, ok, lagged, closed, Env}
use gateway_proxy.Server.Forward.Events.{received_after, renumber-total}
use gateway_proxy.System.{receiving, System, deliver, receive, forward_at, forward_step, Reachable}
use gateway_proxy.System.Safety.{Reachable-Safe}
use gateway_proxy.System.Replays.{Replays, position_after}
use gateway_proxy.System.Positions.{Reachable-Replays}

-- No lag is among the messages.
abbrev pub Prompt : Received → Type 0
Prompt (ok m) = Unit {0}
Prompt (lagged amt) = ⊥
Prompt closed = Unit {0}

received_after-some :
    (position : ℕ) (events : List BroadcastMessage) (m : BroadcastMessage)
    → get_elem? events position ≡ some m
    → received_after position events ≡ ok m ∷ received_after (position + 1) events
received_after-some position events m h =
    go position events h ∙ ap (λ n. ok m ∷ received_after n events) {x = suc position} (omega arith)
  where
    go :
        (position : ℕ) (events : List BroadcastMessage)
        → get_elem? events position ≡ some m
        → received_after position events ≡ ok m ∷ received_after (suc position) events
    go zero [] h = absurd cc
    go zero (m' ∷ events) h = ap (λ x. ok x ∷ map ok events) (Option.some_inj.0 h)
    go (suc position) [] h = absurd cc
    go (suc position) (m' ∷ events) h = go position events h

received_after-none :
    (position : ℕ) (events : List BroadcastMessage)
    → get_elem? events position ≡ none
    → received_after position events ≡ []
received_after-none zero [] h = refl
received_after-none zero (m ∷ events) h = absurd cc
received_after-none (suc position) [] h = refl
received_after-none (suc position) (m ∷ events) h = received_after-none position events h

Replays-Prompt :
    (events : List BroadcastMessage) (position : ℕ) (received : List Received)
    → Replays events position received
    → All Prompt received
    → received_after position events
      ≡ received ++ received_after (position_after position received) events
Replays-Prompt events position [] h prompt = refl
Replays-Prompt events position (ok m ∷ received) h prompt =
    received_after-some position events m h.0
    ∙ ap (λ rs. ok m ∷ rs) (Replays-Prompt events (position + 1) received h.1 prompt.1)
Replays-Prompt events position (lagged amt ∷ received) h prompt = absurd prompt.0
Replays-Prompt events position (closed ∷ received) h prompt = absurd h

module _ (client : ForwardTask) (capacity : ℕ) where
  module _ {Event : Type 0} (dispatch_env : Dispatch.Env InMemoryCache Event)
      (begin_task : Task InMemoryCache) (begin_env : Env) where
    -- However the two tasks interleave, a client that has never lagged has received all messages that
    -- were broadcast since it has subscribed, up to its position: none is lost, is received twice or
    -- is out of order.
    pub Reachable-received_after :
        (s : System) (position : ℕ)
        → Reachable client capacity dispatch_env begin_task begin_env s
        → s.place ≡ receiving position
        → All Prompt s.received
        → received_after s.subscribed s.task.shard.events
          ≡ s.received ++ received_after position s.task.shard.events
    Reachable-received_after s position reached at prompt =
        let (replays, after, _) =
          Reachable-Replays client capacity dispatch_env begin_task begin_env s position reached
            at in
        subst
          (λ p.
            received_after s.subscribed s.task.shard.events
            ≡ s.received ++ received_after p s.task.shard.events)
          after (Replays-Prompt s.task.shard.events s.subscribed s.received replays prompt)

  -- The client's task takes `n` steps.
  abbrev pub forward_steps : ℕ → System → System
  forward_steps zero s = s
  forward_steps (suc n) s = forward_steps n (forward_step client capacity s)

  forward_step-receive :
      (s : System) (position : ℕ) (m : BroadcastMessage)
      → s.place ≡ receiving position
      → length s.task.shard.events ≤ position + capacity
      → get_elem? s.task.shard.events position ≡ some m
      → m.1 ≡ find_sequence m.0
      → (payload : Text) × (seq : ℕ) × (forward_step client capacity s ≡ record s {
        place = receiving (position + 1);
        seq = seq;
        queue = s.queue ++ (payload ∷ []);
        received = s.received ++ (ok m ∷ []);
      })
  unfolding forward_at receive deliver
  forward_step-receive s position m at kept found same =
      let ((payload, seq), e) = renumber-total m s.seq same in
      (
        payload,
        seq,
        ap (forward_at client capacity s) at
            ∙ rw (le→ltb (position + capacity) (length s.task.shard.events) kept)
                (rw found (rw (e, deliver) refl)),
      )

  abbrev CaughtUp : System → ℕ → System → Type 0
  CaughtUp s position s' =
      (s'.place ≡ receiving (length s.task.shard.events))
      × (s'.received ≡ s.received ++ received_after position s.task.shard.events)

  catches_up :
      (n : ℕ) (s : System) (position : ℕ)
      → s.place ≡ receiving position
      → All Relayable s.task.shard.events
      → position + n ≡ length s.task.shard.events
      → n ≤ capacity
      → CaughtUp s position (forward_steps n s)
  catches_up zero s position at relayable left kept = (
    at ∙ ap receiving ((omega (arith, left))),
    sym (append-nil s.received)
        ∙ ap (λ l. s.received ++ l)
            (sym (
              received_after-none position s.task.shard.events
                ((get_elem?-eq-none_iff s.task.shard.events position).1 (omega (arith, left))))),
  )
  catches_up (suc n) s position at relayable left kept =
      elim (Option-cases (get_elem? s.task.shard.events position)) [
        | inl e ↦
            let beyond = (get_elem?-eq-none_iff s.task.shard.events position).0 e in
            absurd (omega (arith, beyond, left))
        | inr (m, e) ↦
            let found = (All-get_elem? Relayable s.task.shard.events position m relayable e).1 in
            let (payload, seq, stepped) =
              forward_step-receive s position m at (omega (arith, left, kept)) e found in
            let (place, received) =
              catches_up n
                (record s {
                  place = receiving (position + 1);
                  seq = seq;
                  queue = s.queue ++ (payload ∷ []);
                  received = s.received ++ (ok m ∷ []);
                })
                (position + 1) refl relayable (omega (arith, left)) (omega (arith, kept)) in
            subst (λ x. CaughtUp s position (forward_steps n x)) (sym stepped)
              (
                place,
                received
                    ∙ (append_assoc s.received (ok m ∷ []) _
                        ∙ ap (λ l. s.received ++ l)
                            (sym (received_after-some position s.task.shard.events m e))),
              )
      ]

  module _ {Event : Type 0} (dispatch_env : Dispatch.Env InMemoryCache Event)
      (begin_task : Task InMemoryCache) (begin_env : Env) where
    -- Where the messages that were broadcast before the client began are dispatch events with the number
    -- found in them, a client that receives and is no more messages behind than the channel retains has,
    -- after as many steps of its own in a row, received all of them, in order and without a lag.
    pub Reachable-catches_up :
        (s : System) (position : ℕ)
        → All Relayable begin_task.shard.events
        → Reachable client capacity dispatch_env begin_task begin_env s
        → s.place ≡ receiving position
        → length s.task.shard.events ≤ position + capacity
        → let s' = forward_steps (length s.task.shard.events - position) s in
          (s'.place ≡ receiving (length s.task.shard.events))
          × (s'.received ≡ s.received ++ received_after position s.task.shard.events)
    Reachable-catches_up s position h reached at kept =
        let (relayable, _) =
          Reachable-Safe client capacity dispatch_env begin_task begin_env s h reached in
        let (_, _, below) =
          Reachable-Replays client capacity dispatch_env begin_task begin_env s position reached
            at in
        catches_up (length s.task.shard.events - position) s position at relayable
          (omega (arith, below)) (omega (arith, below, kept))
