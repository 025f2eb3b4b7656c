-- ===== src/Server/Forward/Events.antt =====
-- From Discord to the client: what `events` broadcasts and `forward_shard` sends.
use gateway_proxy.Prelude.{
  ℕ, zero, suc, ◌^◌, ◌<◌, ◌≡◌, refl, sym, none, some, List, [], ◌∷◌, ◌++◌, map, arith, All,
}
use gateway_proxy.Text.{Text}
use gateway_proxy.Text.Number.{format}
use gateway_proxy.Deserializer.{find_sequence}
use gateway_proxy.Deserializer.Rewrite.{rewrite_sequence}
use gateway_proxy.State.{BroadcastMessage}
use gateway_proxy.Cache.{next_sequence}
use gateway_proxy.Dispatch.{Incoming, Env, Task, events}
use gateway_proxy.Dispatch.Rounds.{Holds, Holds-map}
use gateway_proxy.Dispatch.Relay.{Relayable, events-Relayable}
use gateway_proxy.Server.Forward.{Received, ok, lagged, closed, renumber, forward}
use gateway_proxy.Server.Forward.Numbering.{Found}

-- The messages that are received by a client that subscribes after the first `k`.
abbrev pub received_after : ℕ → List BroadcastMessage → List Received
received_after zero ms = map ok ms
received_after (suc k) [] = []
received_after (suc k) (m ∷ ms) = received_after k ms

next_sequence-wide : (sequence : ℕ) → next_sequence sequence < 2 ^ 64
unfolding next_sequence
next_sequence-wide sequence = omega arith

pub renumber-total :
    (m : BroadcastMessage) (seq : ℕ)
    → m.1 ≡ find_sequence m.0
    → (r : Text × ℕ) × (renumber m seq ≡ some r)
unfolding renumber
renumber-total (payload, none) seq found = ((payload, seq), refl)
renumber-total (payload, some info) seq found =
    let (before, old, after, _, _, _, replaced, _) =
      rewrite_sequence payload info (next_sequence seq) (sym found) (next_sequence-wide seq) in
    ((before ++ (format (next_sequence seq) ++ after), next_sequence seq), rw replaced refl)

forward-total :
    (received : List Received) (seq : ℕ)
    → All Found received
    → (r : List Text × ℕ) × (forward received seq ≡ some r)
unfolding forward
forward-total [] seq found = (([], seq), refl)
forward-total (ok m ∷ received) seq found =
    let (r, renumbered) = renumber-total m seq found.0 in
    let (r', ran) = forward-total received r.1 found.1 in
    ((r.0 ∷ r'.0, r'.1), rw renumbered (rw ran refl))
forward-total (lagged amt ∷ received) seq found = forward-total received seq found.1
forward-total (closed ∷ received) seq found = forward-total received seq found.1

received_after-Found :
    (k : ℕ) (ms : List BroadcastMessage) → All Relayable ms → All Found (received_after k ms)
received_after-Found zero [] h = tt
received_after-Found zero (m ∷ ms) h = (h.0.1, received_after-Found zero ms h.1)
received_after-Found (suc k) [] h = tt
received_after-Found (suc k) (m ∷ ms) h = received_after-Found k ms h.1

-- Whatever Discord sends and whenever a client subscribes, the replacement of the sequence numbers in
-- the events that the client receives does not panic, even where the numbers wrap around.
pub events-forward :
    {Cache Event : Type 0} (env : Env Cache Event) (t : Task Cache) (ms : List Incoming)
    → All Relayable t.shard.events
    → Holds
        (λ t'.
          (k seq : ℕ)
          → (r : List Text × ℕ) × (forward (received_after k t'.shard.events) seq ≡ some r))
        (events env t ms)
events-forward env t ms h =
    Holds-map
      (λ t' relayable k seq.
        forward-total (received_after k t'.shard.events) seq
          (received_after-Found k t'.shard.events relayable))
      (events env t ms) (events-Relayable env t ms h)
