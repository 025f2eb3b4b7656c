-- ===== src/System/Replays.antt =====
-- What a receiver of a broadcast channel yields of the messages (src/server.rs, `forward_shard`).
use gateway_proxy.Prelude.{
  ℕ, ◌+◌, ◌≤◌, ◌<◌, ◌≡◌, refl, sym, ◌∙◌, ap, subst, some, List, [], ◌∷◌, ◌++◌, arith, length,
  length-append, get_elem?, get_elem?-append,
}
use gateway_proxy.State.{BroadcastMessage}
use gateway_proxy.Server.Forward.{Received, ok, lagged, closed}

-- From a position on, each message is the one at the position, and each lag skips messages.
abbrev pub Replays : List BroadcastMessage → ℕ → List Received → Type 0
Replays events position [] = Unit {0}
Replays events position (ok m ∷ received) =
    (get_elem? events position ≡ some m) × Replays events (position + 1) received
Replays events position (lagged amt ∷ received) =
    (0 < amt) × Replays events (position + amt) received
Replays events position (closed ∷ received) = ⊥

abbrev pub position_after : ℕ → List Received → ℕ
position_after position [] = position
position_after position (ok m ∷ received) = position_after (position + 1) received
position_after position (lagged amt ∷ received) = position_after (position + amt) received
position_after position (closed ∷ received) = position_after position received

Replays-append :
    (events : List BroadcastMessage) (position : ℕ) (before after : List Received)
    → Replays events position before
    → Replays events (position_after position before) after
    → Replays events position (before ++ after)
Replays-append events position [] after h h' = h'
Replays-append events position (ok m ∷ before) after h h' =
    (h.0, Replays-append events (position + 1) before after h.1 h')
Replays-append events position (lagged amt ∷ before) after h h' =
    (h.0, Replays-append events (position + amt) before after h.1 h')
Replays-append events position (closed ∷ before) after h h' = absurd h

position_after-append :
    (position : ℕ) (before after : List Received)
    → position_after position (before ++ after)
      ≡ position_after (position_after position before) after
position_after-append position [] after = refl
position_after-append position (ok m ∷ before) after =
    position_after-append (position + 1) before after
position_after-append position (lagged amt ∷ before) after =
    position_after-append (position + amt) before after
position_after-append position (closed ∷ before) after = position_after-append position before after

pub Replays-grow :
    (events more : List BroadcastMessage) (position : ℕ) (received : List Received)
    → Replays events position received
    → Replays (events ++ more) position received
Replays-grow events more position [] h = h
Replays-grow events more position (ok m ∷ received) h = (
  get_elem?-append events more position m h.0,
  Replays-grow events more (position + 1) received h.1,
)
Replays-grow events more position (lagged amt ∷ received) h =
    (h.0, Replays-grow events more (position + amt) received h.1)
Replays-grow events more position (closed ∷ received) h = h

-- The position of the client among the messages that were broadcast, behind what it has received.
abbrev pub At : List BroadcastMessage → ℕ → List Received → ℕ → Type 0
At events subscribed received position =
    Replays events subscribed received
    × (position_after subscribed received ≡ position)
    × (position ≤ length events)

pub At-grow :
    (events more : List BroadcastMessage) (subscribed : ℕ) (received : List Received) (position : ℕ)
    → At events subscribed received position
    → At (events ++ more) subscribed received position
At-grow events more subscribed received position (replays, after, below) = (
  Replays-grow events more subscribed received replays,
  after,
  omega (arith, below, length-append events more),
)

pub At-append :
    (events : List BroadcastMessage) (subscribed : ℕ) (received : List Received) (position : ℕ)
    (r : Received) (position' : ℕ)
    → At events subscribed received position
    → At events position (r ∷ []) position'
    → At events subscribed (received ++ (r ∷ [])) position'
At-append events subscribed received position r position' (replays, after, below)
      (replays', after', below') =
    (
      Replays-append events subscribed received (r ∷ []) replays
          (subst (λ p. Replays events p (r ∷ [])) (sym after) replays'),
      position_after-append subscribed received (r ∷ [])
          ∙ (ap (λ p. position_after p (r ∷ [])) after ∙ after'),
      below',
    )
