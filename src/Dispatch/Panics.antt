-- ===== src/Dispatch/Panics.antt =====
-- `unwrap` on the READY of src/dispatch.rs, the only panic of the task.
use gateway_proxy.Prelude.{
  ◌≡◌, ◌↔◌, refl, sym, ◌∙◌, subst, true, false, Option, none, some, List, [], ◌∷◌, arith, inl, inr,
  Option-cases, Bool-cases, Occurs,
}
use gateway_proxy.Text.{Text}
use gateway_proxy.Text.Words.{text_eq, text_eq_iff}
use gateway_proxy.Deserializer.{
  OpInfo, SequenceInfo, GatewayEvent, EventTypeInfo, from_json, into_parts,
}
use gateway_proxy.Dispatch.{
  Incoming, text, close, error, closed, Env, Task, panic, ready_name, store_ready, relay, finish,
  handle_text, round, events,
}
use gateway_proxy.Dispatch.Rounds.{count}
use gateway_proxy.Dispatch.Texts.{texts, handle_text-cases}

module _ {Cache Event : Type 0} (env : Env Cache Event) where
  -- A READY that the JSON library does not read.
  abbrev pub Unreadable : Text → Type 0
  Unreadable p =
      (event : GatewayEvent) × (info : EventTypeInfo) × (from_json p ≡ some event)
      × (event.event_type ≡ some info)
      × (info.name ≡ ready_name)
      × (env.ready_from_str p ≡ none)

  panics : (t : Task Cache) (p : Text) → Unreadable p → handle_text env t p ≡ panic
  unfolding handle_text finish relay store_ready
  panics t p (event, info, parsed, named, ready, failed) =
      let same = (text_eq_iff info.name ready_name).1 ready in
      rw (parsed, handle_text) (simp (named, relay) (rw (same) (simp (failed, store_ready) refl)))

  store_ready-eq-none :
      (t : Task Cache) (p : Text) → store_ready env t p ≡ none → env.ready_from_str p ≡ none
  unfolding store_ready
  store_ready-eq-none t p h = elim (Option-cases (env.ready_from_str p)) [
    | inl e ↦ e
    | inr (ready, e) ↦ absurd (ground (arith, e, h))
  ]

  relay-eq-none :
      (t : Task Cache) (p : Text) (op : OpInfo) (sequence : Option SequenceInfo)
      (event_type : Option EventTypeInfo)
      → relay env t p (op, sequence, event_type) ≡ none
      → (info : EventTypeInfo) × (event_type ≡ some info)
        × (info.name ≡ ready_name)
        × (env.ready_from_str p ≡ none)
  unfolding relay
  relay-eq-none t p op sequence none h = absurd cc
  relay-eq-none t p op sequence (some info) h = elim (Bool-cases (text_eq info.name ready_name)) [
    | inl e ↦ (
      info,
      refl,
      (text_eq_iff info.name ready_name).0 e,
      store_ready-eq-none (count t info.name) p (ground (arith, e, h)),
    )
    | inr e ↦ absurd (ground (arith, e, h))
  ]

  pub panicked : (t : Task Cache) (p : Text) → handle_text env t p ≡ panic → Unreadable p
  unfolding handle_text finish
  panicked t p h = elim (Option-cases (from_json p)) [
    | inl e ↦ absurd (ground (arith, e, h))
    | inr (event, parsed) ↦ elim (Option-cases (relay env t p (into_parts event))) [
      | inl e ↦
          let (info, named, ready, failed) =
            relay-eq-none t p event.op event.sequence event.event_type e in
          (event, info, parsed, named, ready, failed)
      | inr (t', e) ↦ absurd (ground (arith, parsed, e, h))
    ]
  ]

  -- The task panics exactly if a READY that the JSON library cannot read arrives before the end of the
  -- stream.
  pub events-eq-panic_iff :
      (t : Task Cache) (ms : List Incoming)
      → (events env t ms ≡ panic) ↔ ((p : Text) × Occurs p (texts ms) × Unreadable p)
  unfolding events round
  events-eq-panic_iff t [] = (λ h. absurd cc, λ h. absurd h.1)
  events-eq-panic_iff t (text p ∷ ms) = elim (handle_text-cases env t p) [
    | inl e ↦ (λ _. (p, inl refl, panicked t p e), λ _. rw (e, events) refl)
    | inr (t', e) ↦
        let (out, back) = events-eq-panic_iff t' ms in
        (
          λ h. let (q, o, u) = out (sym (rw (e, events) refl) ∙ h) in (q, inr o, u),
          λ h.
              let (q, occurs, u) = h in
              elim occurs [
                | inl same ↦ let ended = panics t p (subst Unreadable same u) in absurd cc
                | inr o ↦ rw (e, events) (back (q, o, u))
              ],
        )
  ]
  events-eq-panic_iff t (close true ∷ ms) = (λ h. absurd cc, λ h. absurd h.1)
  events-eq-panic_iff t (close false ∷ ms) = events-eq-panic_iff t ms
  events-eq-panic_iff t (error ∷ ms) = events-eq-panic_iff t ms
  events-eq-panic_iff t (closed ∷ ms) = (λ h. absurd cc, λ h. absurd h.1)
