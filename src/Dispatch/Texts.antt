-- ===== src/Dispatch/Texts.antt =====
-- The task of src/dispatch.rs as a fold over the text messages.
use gateway_proxy.Prelude.{
  ◌≡◌, ◌⊎◌, refl, subst, true, false, List, [], ◌∷◌, Option-cases, inl, inr,
}
use gateway_proxy.Text.{Text}
use gateway_proxy.Deserializer.{from_json, into_parts}
use gateway_proxy.Dispatch.{
  Incoming, text, close, error, closed, Env, Task, next, panic, relay, react, finish, handle_text,
  round, events,
}
use gateway_proxy.Dispatch.Rounds.{Holds, Holds-map}

-- The text messages before the end of the stream.
abbrev pub texts : List Incoming → List Text
texts [] = []
texts (text payload ∷ ms) = payload ∷ texts ms
texts (close true ∷ ms) = []
texts (close false ∷ ms) = texts ms
texts (error ∷ ms) = texts ms
texts (closed ∷ ms) = []

module _ {Cache Event : Type 0} (env : Env Cache Event) where
  pub handle_text-cases :
      (t : Task Cache) (payload : Text)
      → (handle_text env t payload ≡ panic)
        ⊎ ((t' : Task Cache) × (handle_text env t payload ≡ next t'))
  unfolding handle_text finish
  handle_text-cases t payload = elim (Option-cases (from_json payload)) [
    | inl e ↦ inr (t, rw (e, handle_text) refl)
    | inr (event, e) ↦ elim (Option-cases (relay env t payload (into_parts event))) [
      | inl e' ↦ inl (rw (e, handle_text) (rw (e', finish) refl))
      | inr (t', e') ↦
          inr (react env t' (env.parse payload), rw (e, handle_text) (rw (e', finish) refl))
    ]
  ]

  -- A relation that each text message extends at its front holds between the task at first, the texts
  -- and the task at the end.
  pub events-texts :
      (P : Task Cache → List Text → Task Cache → Type 0)
      → ((t : Task Cache) → P t [] t)
      → ((t : Task Cache) (p : Text)
          → Holds
              (λ t'. (ps : List Text) (t'' : Task Cache) → P t' ps t'' → P t (p ∷ ps) t'')
              (handle_text env t p))
      → (t : Task Cache) (ms : List Incoming) → Holds (P t (texts ms)) (events env t ms)
  unfolding events round
  events-texts P none_left one t [] = none_left t
  events-texts P none_left one t (text p ∷ ms) = elim (handle_text-cases t p) [
    | inl e ↦ rw (e, events) tt
    | inr (t', e) ↦
        let extend =
          subst (Holds (λ t'. (ps : List Text) (t'' : Task Cache) → P t' ps t'' → P t (p ∷ ps) t''))
            e (one t p) in
        rw (e, events)
          (Holds-map (λ t'' h. extend (texts ms) t'' h) (events env t' ms)
            (events-texts P none_left one t' ms))
  ]
  events-texts P none_left one t (close true ∷ ms) = none_left t
  events-texts P none_left one t (close false ∷ ms) = events-texts P none_left one t ms
  events-texts P none_left one t (error ∷ ms) = events-texts P none_left one t ms
  events-texts P none_left one t (closed ∷ ms) = none_left t
