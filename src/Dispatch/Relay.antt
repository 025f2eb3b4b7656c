-- ===== src/Dispatch/Relay.antt =====
-- What the task broadcasts to the clients.
use gateway_proxy.Prelude.{
  ◌≡◌, ◌≢◌, refl, ◌∙◌, Bool, true, false, Option, none, some, List, [], ◌∷◌, ◌++◌, map, arith,
  if◌then◌else◌, append_assoc, append-nil, All,
}
use gateway_proxy.Text.{Text}
use gateway_proxy.Text.Words.{text_eq_iff}
use gateway_proxy.Deserializer.{
  GatewayEvent, EventTypeInfo, op_of, from_json, into_parts, find_sequence,
}
use gateway_proxy.State.{BroadcastMessage}
use gateway_proxy.Dispatch.{
  Incoming, text, TwilightEvent, dispatch, invalidate_session, other, Env, Task, next, ready_name,
  resumed_name, relay, react, broadcast, finish, handle_text, round, events,
}
use gateway_proxy.Dispatch.Rounds.{
  Holds, count, relay-Holds, relay-Holds_parts, finish-Holds, round-Holds, events-Holds, Keeps-all,
}

-- A payload that clients may get: a dispatch event other than READY and RESUMED.
pub record IsEvent (payload : Text) : Type 0 where
  pub event : GatewayEvent
  pub info : EventTypeInfo
  pub parsed : from_json payload ≡ some event
  pub is_dispatch : op_of event ≡ 0
  pub named : event.event_type ≡ some info
  pub not_ready : info.name ≢ ready_name
  pub not_resumed : info.name ≢ resumed_name

All-append :
    {A : Type 0} (P : A → Type 0) (xs : List A) (y : A) → All P xs → P y → All P (xs ++ (y ∷ []))
All-append P [] y hs h = (h, tt)
All-append P (x ∷ xs) y hs h = (hs.0, All-append P xs y hs.1 h)

-- A broadcast message is such a payload, with the sequence number that is found in it.
abbrev pub Relayable : BroadcastMessage → Type 0
Relayable m = IsEvent m.0 × (m.1 ≡ find_sequence m.0)

pub from_json-sequence :
    (payload : Text) (event : GatewayEvent)
    → from_json payload ≡ some event
    → event.sequence ≡ find_sequence payload
unfolding from_json
from_json-sequence payload event h = ground arith

module _ {Cache Event : Type 0} (env : Env Cache Event) where
  abbrev Sent : Task Cache → Type 0
  Sent t = All Relayable t.shard.events

  react-Sent : (t : Task Cache) (r : Option (TwilightEvent Event)) → Sent t → Sent (react env t r)
  unfolding react
  react-Sent t none h = h
  react-Sent t (some (dispatch event)) h = h
  react-Sent t (some (invalidate_session true)) h = h
  react-Sent t (some (invalidate_session false)) h = h
  react-Sent t (some other) h = h

  -- Whatever Discord sends, the task broadcasts only dispatch events other than READY and RESUMED,
  -- each with the sequence number that is found in it.
  pub events-Relayable :
      (t : Task Cache) (ms : List Incoming)
      → All Relayable t.shard.events
      → Holds (λ t'. All Relayable t'.shard.events) (events env t ms)
  unfolding broadcast
  events-Relayable t ms h =
      events-Holds Sent env t ms
        (Keeps-all Sent env
          (λ t m h. round-Holds Sent env t m h λ payload event _ parsed.
            finish-Holds Sent env Sent (relay env t payload (into_parts event)) payload
              (relay-Holds_parts Sent env t payload event h λ info named.
                relay-Holds Sent env t payload event.op event.sequence info (λ r _ _. h) (λ _. h)
                  (λ not_ready not_resumed op_zero _.
                    All-append Relayable t.shard.events (payload, event.sequence) h
                      (
                        record {
                          event = event;
                          info = info;
                          parsed = parsed;
                          is_dispatch = op_zero;
                          named = named;
                          not_ready = not_ready;
                          not_resumed = not_resumed;
                        },
                        from_json-sequence payload event parsed,
                      ))
                  (λ _ _ _. h))
              (λ t' h'. react-Sent t' (env.parse payload) h'))
          ms)
        h

  -- Twilight does not read an invalidation of the session from the payload.
  abbrev pub IsPlain : Text → Type 0
  IsPlain payload =
      IsEvent payload
      × ((resumable : Bool) → env.parse payload ≢ some (invalidate_session resumable))

  relay-IsEvent :
      (t : Task Cache) (payload : Text) (e : IsEvent payload)
      → relay env t payload (into_parts e.event)
        ≡ some (
            if t.is_ready
            then broadcast env (count t e.info.name) payload (find_sequence payload)
            else count t e.info.name)
  unfolding relay
  relay-IsEvent t payload e = ground (
    arith,
    e.named,
    e.is_dispatch,
    e.not_ready,
    e.not_resumed,
    text_eq_iff e.info.name ready_name,
    text_eq_iff e.info.name resumed_name,
    from_json-sequence payload e.event e.parsed,
  )

  react_plain :
      (t : Task Cache) (r : Option (TwilightEvent Event))
      → ((resumable : Bool) → r ≢ some (invalidate_session resumable))
      → ((react env t r).is_ready ≡ t.is_ready) × ((react env t r).shard.events ≡ t.shard.events)
  unfolding react
  react_plain t none h = (refl, refl)
  react_plain t (some (dispatch event)) h = (refl, refl)
  react_plain t (some (invalidate_session b)) h = absurd (h b refl)
  react_plain t (some other) h = (refl, refl)

  abbrev sent : Bool → Text → List BroadcastMessage
  sent live payload = if live then (payload, find_sequence payload) ∷ [] else []

  round-IsPlain :
      (t : Task Cache) (payload : Text)
      → IsPlain payload
      → (t' : Task Cache) × (round env t (text payload) ≡ next t')
        × (t'.is_ready ≡ t.is_ready)
        × (t'.shard.events ≡ t.shard.events ++ sent t.is_ready payload)
  unfolding round handle_text finish broadcast
  round-IsPlain t payload (e, valid) =
      let relayed =
        if t.is_ready
        then broadcast env (count t e.info.name) payload (find_sequence payload)
        else count t e.info.name in
      let (same, same_events) = react_plain relayed (env.parse payload) valid in
      (
        react env relayed (env.parse payload),
        rw (e.parsed, handle_text) (rw (relay-IsEvent t payload e) refl),
        ground (arith, same),
        ground (arith, same_events, append-nil t.shard.events),
      )

  -- Over any list of such payloads that do not invalidate the session, a task that is READY broadcasts
  -- each of them once, in order, and one that is not broadcasts none; it stays what it was.
  pub events-messages :
      (t : Task Cache) (payloads : List Text)
      → All IsPlain payloads
      → (t' : Task Cache) × (events env t (map text payloads) ≡ next t')
        × (t'.is_ready ≡ t.is_ready)
        × (t'.shard.events
            ≡ t.shard.events
              ++ (if t.is_ready then map (λ p. (p, find_sequence p)) payloads else []))
  unfolding events
  events-messages t [] plain = (t, refl, refl, ground (arith, append-nil t.shard.events))
  events-messages t (p ∷ ps) plain =
      let (t', stepped, live, grown) = round-IsPlain t p plain.0 in
      let (t'', ran, live', grown') = events-messages t' ps plain.1 in
      (
        t'',
        rw (stepped, events) ran,
        live' ∙ live,
        ground (
          arith,
          append_assoc t.shard.events (sent t.is_ready p)
              (if t.is_ready then map (λ q. (q, find_sequence q)) ps else []),
        ),
      )
