-- ===== src/Dispatch/Started.antt =====
-- When the task of src/dispatch.rs relays, read off the payloads.
use gateway_proxy.Prelude.{
  ◌≡◌, refl, sym, ◌∙◌, ap, subst, Bool, true, false, List, [], ◌∷◌, ◌++◌, ◌⊎◌, ◌↔◌, arith, All,
  Bool-cases, inl, inr,
}
use gateway_proxy.Text.{Text}
use gateway_proxy.Dispatch.{Incoming, Env, Task, events}
use gateway_proxy.Dispatch.Rounds.{Holds, Holds-map}
use gateway_proxy.Dispatch.Texts.{texts}
use gateway_proxy.Dispatch.Live.{starts, invalidates, live_after, live, events-broadcasts}

module _ {Cache Event : Type 0} (env : Env Cache Event) where
  abbrev pub Valid : Text → Type 0
  Valid p = invalidates env p ≡ false

  -- A READY or a RESUMED that nothing has invalidated since.
  abbrev pub Started : List Text → Type 0
  Started ps =
      (before : List Text) × (p : Text) × (after : List Text) × (ps ≡ before ++ (p ∷ after))
      × (starts p ≡ true)
      × All Valid (p ∷ after)

  Started-grow : (q : Text) (qs : List Text) → Started qs → Started (q ∷ qs)
  Started-grow q qs (before, p, after, split, start, valid) =
      (q ∷ before, p, after, ap (λ l. q ∷ l) split, start, valid)

  Started-tail :
      (q : Text) (qs : List Text)
      → Started (q ∷ qs)
      → ((starts q ≡ true) × All Valid (q ∷ qs)) ⊎ Started qs
  Started-tail q qs ([], p, after, split, start, valid) =
      let same : p ≡ q = cc in
      inl (subst (λ x. starts x ≡ true) same start, subst (λ l. All Valid l) (sym split) valid)
  Started-tail q qs (b ∷ before, p, after, split, start, valid) =
      let split' : qs ≡ before ++ (p ∷ after) = cc in inr (before, p, after, split', start, valid)

  live_iff :
      (b : Bool) (ps : List Text)
      → (live env b ps ≡ true) ↔ (((b ≡ true) × All Valid ps) ⊎ Started ps)
  live_iff b [] = (
    λ h. inl (h, tt),
    λ h. elim h [
      | inl (now, _) ↦ now
      | inr ([], _, _, e, _, _) ↦ absurd cc
      | inr (_ ∷ _, _, _, e, _, _) ↦ absurd cc
    ],
  )
  live_iff b (q ∷ qs) =
      let (split, join) = live_iff (live_after env b q) qs in
      (
        λ h. elim (split h) [
          | inr later ↦ inr (Started-grow q qs later)
          | inl (now, valid) ↦ elim (Bool-cases (starts q)) [
            | inl start ↦ inr ([], q, qs, refl, start, (ground (arith, now), valid))
            | inr plain ↦ inl (ground (arith, now, plain), (ground (arith, now), valid))
          ]
        ],
        λ h. elim h [
          | inl (now, valid) ↦ join (inl (ground (arith, now, valid.0), valid.1))
          | inr started ↦ elim (Started-tail q qs started) [
            | inl (start, valid) ↦ join (inl (ground (arith, start, valid.0), valid.1))
            | inr later ↦ join (inr later)
          ]
        ],
      )

  -- Unless it panics, the task relays at the end exactly if it did so at first and no payload has
  -- invalidated the session, or if nothing has invalidated it from some READY or RESUMED on.
  pub events-is_ready_iff :
      (t : Task Cache) (ms : List Incoming)
      → Holds
          (λ t'.
            (t'.is_ready ≡ true)
            ↔ (((t.is_ready ≡ true) × All Valid (texts ms)) ⊎ Started (texts ms)))
          (events env t ms)
  events-is_ready_iff t ms =
      Holds-map
        (λ t' h.
          let (split, join) = live_iff t.is_ready (texts ms) in
          (λ now. split (sym h.0 ∙ now), λ why. h.0 ∙ join why))
        (events env t ms) (events-broadcasts env t ms)
