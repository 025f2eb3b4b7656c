-- ===== src/Dispatch/Live.antt =====
-- The task against a specification that keeps no state but whether it relays.
use gateway_proxy.Prelude.{
  ◌≡◌, refl, ◌∙◌, ap, Bool, true, false, not, ◌&&◌, ◌||◌, Option, none, some, List, [], ◌∷◌, ◌++◌,
  arith, if◌then◌else◌, Option-cases, inl, inr, ◌==◌, append-nil, append_assoc, list_laws,
}
use gateway_proxy.Text.{Text}
use gateway_proxy.Text.Words.{text_eq, text_eq_iff}
use gateway_proxy.Deserializer.{
  GatewayEvent, EventTypeInfo, from_json, into_parts, find_sequence, op_of,
}
use gateway_proxy.State.{BroadcastMessage}
use gateway_proxy.Dispatch.{
  Incoming, TwilightEvent, dispatch, invalidate_session, other, Env, Task, ready_name, resumed_name,
  relay, react, broadcast, handle_text, events,
}
use gateway_proxy.Dispatch.Rounds.{Holds, Holds-map, HoldsIn, relay-Holds, finish-Holds}
use gateway_proxy.Dispatch.Texts.{texts, events-texts}
use gateway_proxy.Dispatch.Relay.{from_json-sequence}

-- A READY or a RESUMED.
abbrev pub is_start : EventTypeInfo → Bool
is_start info = text_eq info.name ready_name || text_eq info.name resumed_name

abbrev starts_event : GatewayEvent → Bool
starts_event event = elim event.event_type [ none ↦ false | some info ↦ is_start info ]

unfoldable pub starts : Text → Bool
starts payload = elim (from_json payload) [ none ↦ false | some event ↦ starts_event event ]

abbrev relayed_event : GatewayEvent → Bool
relayed_event event = elim event.event_type [
  | none ↦ false
  | some info ↦ not (is_start info) && op_of event == 0
]

-- A dispatch event that is neither.
unfoldable pub relayed : Text → Bool
relayed payload = elim (from_json payload) [ none ↦ false | some event ↦ relayed_event event ]

abbrev pub is_invalidation : {Event : Type 0} → Option (TwilightEvent Event) → Bool
is_invalidation (some (invalidate_session _)) = true
is_invalidation (some (dispatch _)) = false
is_invalidation (some other) = false
is_invalidation none = false

module _ {Cache Event : Type 0} (env : Env Cache Event) where
  unfoldable pub invalidates : Text → Bool
  invalidates payload = elim (from_json payload) [
    | none ↦ false
    | some event ↦ is_invalidation (env.parse payload)
  ]

  abbrev pub live_after : Bool → Text → Bool
  live_after live payload = not (invalidates payload) && (starts payload || live)

  -- Whether the task relays behind a list of payloads.
  abbrev pub live : Bool → List Text → Bool
  live b [] = b
  live b (p ∷ ps) = live (live_after b p) ps

  abbrev pub sent : Bool → Text → List BroadcastMessage
  sent b p = if relayed p && b then (p, find_sequence p) ∷ [] else []

  -- What it relays of a list of payloads.
  abbrev pub broadcasts : Bool → List Text → List BroadcastMessage
  broadcasts b [] = []
  broadcasts b (p ∷ ps) = sent b p ++ broadcasts (live_after b p) ps

  abbrev pub Step : Task Cache → Text → Task Cache → Type 0
  Step t payload t' =
      (t'.is_ready ≡ live_after t.is_ready payload)
      × (t'.shard.events ≡ t.shard.events ++ sent t.is_ready payload)

  -- The first half of a round.
  abbrev Half : Task Cache → Text → GatewayEvent → Task Cache → Type 0
  Half t payload event t' =
      (t'.is_ready ≡ (starts_event event || t.is_ready))
      × (t'.shard.events
          ≡ t.shard.events
            ++ (if relayed_event event && t.is_ready
                then (payload, find_sequence payload) ∷ []
                else []))

  relay-Half :
      (t : Task Cache) (payload : Text) (event : GatewayEvent)
      → from_json payload ≡ some event
      → HoldsIn (Half t payload event) (relay env t payload (into_parts event))
  unfolding broadcast relay
  relay-Half t payload event parsed = elim (Option-cases event.event_type) [
    | inl e ↦ simp (e, relay) (ground (arith, e), ground (arith, e, append-nil t.shard.events))
    | inr (info, e) ↦
        let named = text_eq_iff info.name in
        simp (e) (
          relay-Holds (Half t payload event) env t payload event.op event.sequence info
            (λ ready _ is_ready. ground (arith, e, named ready_name, append-nil t.shard.events))
            (λ is_resumed. ground (arith, e, named resumed_name, append-nil t.shard.events))
            (λ not_ready not_resumed op_zero is_live. ground (
              arith,
              e,
              named ready_name,
              named resumed_name,
              from_json-sequence payload event parsed,
            ))
            (λ not_ready not_resumed plain.
              ground (arith, e, named ready_name, named resumed_name, append-nil t.shard.events)))
  ]

  react-Half :
      (t : Task Cache) (payload : Text) (event : GatewayEvent) (r : Option (TwilightEvent Event))
      (t' : Task Cache)
      → Half t payload event t'
      → ((react env t' r).is_ready
          ≡ (not (is_invalidation r) && (starts_event event || t.is_ready)))
        × ((react env t' r).shard.events ≡ t'.shard.events)
  unfolding react
  react-Half t payload event none t' h = (h.0, refl)
  react-Half t payload event (some (dispatch e)) t' h = (h.0, refl)
  react-Half t payload event (some (invalidate_session true)) t' h = (refl, refl)
  react-Half t payload event (some (invalidate_session false)) t' h = (refl, refl)
  react-Half t payload event (some other) t' h = (h.0, refl)

  pub handle_text-Step :
      (t : Task Cache) (payload : Text) → Holds (Step t payload) (handle_text env t payload)
  unfolding handle_text starts relayed invalidates
  handle_text-Step t payload = elim (Option-cases (from_json payload)) [
    | inl e ↦
        rw (e, handle_text) (rw (e, starts, invalidates) refl, rw (e, relayed) (simp list_laws))
    | inr (event, e) ↦
        rw (e, handle_text)
          (finish-Holds (Step t payload) env (Half t payload event)
            (relay env t payload (into_parts event)) payload (relay-Half t payload event e)
            (λ t' h.
              let (ready, same) = react-Half t payload event (env.parse payload) t' h in
              (rw (e, starts, invalidates) ready, same ∙ rw (e, relayed) h.1)))
  ]

  abbrev Outcome : Task Cache → List Text → Task Cache → Type 0
  Outcome t ps t' =
      (t'.is_ready ≡ live t.is_ready ps)
      × (t'.shard.events ≡ t.shard.events ++ broadcasts t.is_ready ps)

  Step-Outcome :
      (t t' t'' : Task Cache) (p : Text) (ps : List Text)
      → Step t p t'
      → Outcome t' ps t''
      → Outcome t (p ∷ ps) t''
  Step-Outcome t t' t'' p ps step out = (
    out.0 ∙ ap (λ b. live b ps) step.0,
    out.1
        ∙ (ap (λ es. es ++ broadcasts t'.is_ready ps) step.1
            ∙ (ap (λ b. (t.shard.events ++ sent t.is_ready p) ++ broadcasts b ps) step.0
                ∙ append_assoc t.shard.events (sent t.is_ready p)
                    (broadcasts (live_after t.is_ready p) ps))),
  )

  -- Unless it panics, the task broadcasts, until the stream ends, exactly what the specification says,
  -- which keeps no state but whether the session is live; at the end its flag is that of the
  -- specification.
  pub events-broadcasts :
      (t : Task Cache) (ms : List Incoming)
      → Holds
          (λ t'.
            (t'.is_ready ≡ live t.is_ready (texts ms))
            × (t'.shard.events ≡ t.shard.events ++ broadcasts t.is_ready (texts ms)))
          (events env t ms)
  events-broadcasts t ms =
      events-texts env Outcome (λ t. (refl, simp list_laws))
        (λ t p.
          Holds-map (λ t' step ps t''. Step-Outcome t t' t'' p ps step) (handle_text env t p)
            (handle_text-Step t p))
        t ms
