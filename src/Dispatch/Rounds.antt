-- ===== src/Dispatch/Rounds.antt =====
-- Properties of the task that every round keeps.
use gateway_proxy.Prelude.{
  ◌≡◌, ◌≢◌, refl, subst, inl, inr, true, false, Option, none, some, List, [], ◌∷◌, Option-cases,
  arith, if-elim, ◌==◌, ◌&&◌, ◌++◌,
}
use gateway_proxy.Text.{Text}
use gateway_proxy.Text.Words.{text_eq, text_eq_iff}
use gateway_proxy.Deserializer.{
  GatewayEvent, EventTypeInfo, OpInfo, SequenceInfo, from_json, into_parts,
}
use gateway_proxy.Model.{Ready}
use gateway_proxy.State.Readiness.{set_ready}
use gateway_proxy.Dispatch.{
  Incoming, text, close, error, closed, Env, Task, Round, next, return, panic, blank_ready,
  store_ready, broadcast, ready_name, resumed_name, relay, react, finish, handle_text, round,
  events,
}

abbrev pub Holds {ℓ} : {S : Type 0} → (S → Type ℓ) → Round S → Type ℓ
Holds P (next t) = P t
Holds P (return t) = P t
Holds P panic = Unit

pub Holds-map {ℓ κ} :
    {S : Type 0} {P : S → Type ℓ} {Q : S → Type κ}
    → ((t : S) → P t → Q t)
    → (r : Round S) → Holds P r
    → Holds Q r
Holds-map f (next t) h = f t h
Holds-map f (return t) h = f t h
Holds-map f panic h = tt

-- The same of a part of a round, where `none` is a panic.
abbrev pub HoldsIn {ℓ} : {S : Type 0} → (S → Type ℓ) → Option S → Type ℓ
HoldsIn P (some t) = P t
HoldsIn P none = Unit

-- The task has counted a name.
abbrev pub count : {Cache : Type 0} → Task Cache → Text → Task Cache
count t name = record t { counted = t.counted ++ (name ∷ []) }

module _ {ℓ} {Cache Event : Type 0} (P : Task Cache → Type ℓ) (env : Env Cache Event) where
  store_ready-Holds :
      (t : Task Cache) (payload : Text)
      → ((ready : Ready)
          → env.ready_from_str payload ≡ some ready
          → P (record t {
            is_ready = true;
            shard = record (t.shard) {
              ready = set_ready t.shard.ready (blank_ready env.externally_accessible_url ready.d);
            };
          }))
      → HoldsIn P (store_ready env t payload)
  unfolding store_ready
  store_ready-Holds t payload h = elim (Option-cases (env.ready_from_str payload)) [
    | inl e ↦ rw (e, store_ready) tt
    | inr (ready, e) ↦ rw (e, store_ready) (h ready e)
  ]

  -- The cases of `relay` for a payload with an event type.
  pub relay-Holds :
      (t : Task Cache) (payload : Text) (op : OpInfo) (sequence : Option SequenceInfo)
      (info : EventTypeInfo)
      → ((ready : Ready)
          → env.ready_from_str payload ≡ some ready
          → info.name ≡ ready_name
          → P (record (count t info.name) {
            is_ready = true;
            shard = record (t.shard) {
              ready = set_ready t.shard.ready (blank_ready env.externally_accessible_url ready.d);
            };
          }))
      → (info.name ≡ resumed_name → P (record (count t info.name) { is_ready = true }))
      → (info.name ≢ ready_name
          → info.name ≢ resumed_name
          → op.op ≡ 0
          → t.is_ready ≡ true
          → P (broadcast env (count t info.name) payload sequence))
      → (info.name ≢ ready_name
          → info.name ≢ resumed_name
          → (op.op == 0 && t.is_ready) ≡ false
          → P (count t info.name))
      → HoldsIn P (relay env t payload (op, sequence, some info))
  unfolding relay
  relay-Holds t payload op sequence info ready resumed sent plain =
      if-elim (HoldsIn P) (text_eq info.name ready_name)
        (λ yes_ready.
          store_ready-Holds (count t info.name) payload
            (λ r e. ready r e ((text_eq_iff info.name ready_name).0 yes_ready)))
        (λ not_ready.
          if-elim (HoldsIn P) (text_eq info.name resumed_name)
            (λ yes_resumed. resumed ((text_eq_iff info.name resumed_name).0 yes_resumed))
            (λ not_resumed.
              if-elim (HoldsIn P) (op.op == 0 && t.is_ready)
                (λ both.
                  sent (λ e. ground (arith, text_eq_iff info.name ready_name))
                    (λ e. ground (arith, text_eq_iff info.name resumed_name)) (ground arith)
                    (ground arith))
                (plain (λ e. ground (arith, text_eq_iff info.name ready_name))
                  (λ e. ground (arith, text_eq_iff info.name resumed_name)))))

  pub relay-Holds_parts :
      (t : Task Cache) (payload : Text) (event : GatewayEvent)
      → P t
      → ((info : EventTypeInfo)
          → event.event_type ≡ some info
          → HoldsIn P (relay env t payload (event.op, event.sequence, some info)))
      → HoldsIn P (relay env t payload (into_parts event))
  unfolding relay
  relay-Holds_parts t payload event h named = elim (Option-cases event.event_type) [
    | inl e ↦ rw (e, relay) h
    | inr (info, e) ↦ rw e (named info e)
  ]

  pub finish-Holds {κ} :
      (Q : Task Cache → Type κ) (r : Option (Task Cache)) (payload : Text)
      → HoldsIn Q r
      → ((t : Task Cache) → Q t → P (react env t (env.parse payload)))
      → Holds P (finish env r payload)
  unfolding finish
  finish-Holds Q none payload h reacts = tt
  finish-Holds Q (some t) payload h reacts = reacts t h

  -- What every text message keeps, every round keeps.
  pub round-Holds :
      (t : Task Cache) (m : Incoming)
      → P t
      → ((payload : Text) (event : GatewayEvent)
          → m ≡ text payload
          → from_json payload ≡ some event
          → Holds P (finish env (relay env t payload (into_parts event)) payload))
      → Holds P (round env t m)
  unfolding round handle_text
  round-Holds t (text payload) h on_text = elim (Option-cases (from_json payload)) [
    | inl e ↦ rw (e, handle_text) h
    | inr (event, e) ↦ rw (e, handle_text) (on_text payload event refl e)
  ]
  round-Holds t (close true) h on_text = h
  round-Holds t (close false) h on_text = h
  round-Holds t error h on_text = h
  round-Holds t closed h on_text = h

  -- What every round of the list keeps holds at the end.
  abbrev pub Keeps : List Incoming → Type ℓ
  Keeps [] = Unit
  Keeps (m ∷ ms) = ((t : Task Cache) → P t → Holds P (round env t m)) × Keeps ms

  pub events-Holds :
      (t : Task Cache) (ms : List Incoming) → Keeps ms → P t → Holds P (events env t ms)
  unfolding events
  events-Holds t [] k h = h
  events-Holds t (m ∷ ms) k h = go (round env t m) (k.0 t h) (λ t'. events-Holds t' ms k.1)
    where
      go :
          (r : Round (Task Cache))
          → Holds P r
          → ((t' : Task Cache) → P t' → Holds P (events env t' ms))
          → Holds P (elim r [ next t' ↦ events env t' ms | return t' ↦ return t' | panic ↦ panic ])
      go (next t') h rest = rest t' h
      go (return t') h rest = h
      go panic h rest = tt

  pub Keeps-all :
      ((t : Task Cache) (m : Incoming) → P t → Holds P (round env t m))
      → (ms : List Incoming) → Keeps ms
  Keeps-all step [] = tt
  Keeps-all step (m ∷ ms) = (λ t. step t m, Keeps-all step ms)

  -- What a run of one round keeps, the round keeps.
  pub next-Holds :
      (t : Task Cache) (m : Incoming) (t' : Task Cache)
      → round env t m ≡ next t'
      → Holds P (events env t (m ∷ []))
      → P t'
  unfolding events
  next-Holds t m t' e h =
      let run : events env t (m ∷ []) ≡ next t' = rw (e, events) refl in subst (Holds P) run h

  pub return-Holds :
      (t : Task Cache) (m : Incoming) (t' : Task Cache)
      → round env t m ≡ return t'
      → Holds P (events env t (m ∷ []))
      → P t'
  unfolding events
  return-Holds t m t' e h =
      let run : events env t (m ∷ []) ≡ return t' = rw (e, events) refl in subst (Holds P) run h
