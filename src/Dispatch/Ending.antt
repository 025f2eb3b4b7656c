-- ===== src/Dispatch/Ending.antt =====
-- When the loop of `events` of src/dispatch.rs ends.
use gateway_proxy.Prelude.{◌≡◌, ◌↔◌, ◌⊎◌, refl, subst, true, false, List, [], ◌∷◌, inl, inr, Occurs}
use gateway_proxy.Text.{Text}
use gateway_proxy.Dispatch.{
  Incoming, text, close, error, closed, Env, Task, Round, next, return, round, events,
}
use gateway_proxy.Dispatch.Texts.{texts, handle_text-cases}
use gateway_proxy.Dispatch.Panics.{Unreadable, panicked}

-- The end of the stream, or a close message while the proxy shuts down.
abbrev pub IsEnd : Incoming → Type 0
IsEnd m = (m ≡ close true) ⊎ (m ≡ closed)

abbrev pub HasEnd : List Incoming → Type 0
HasEnd ms = (m : Incoming) × Occurs m ms × IsEnd m

later :
    {P : Type 0} (m : Incoming) (ms : List Incoming)
    → (IsEnd m → ⊥)
    → P ↔ HasEnd ms
    → P ↔ HasEnd (m ∷ ms)
later m ms goes_on (to, back) = (
  λ h. let (m', occurs, end) = to h in (m', inr occurs, end),
  λ (m', occurs, end). elim occurs [
    | inl same ↦ absurd (goes_on (subst IsEnd same end))
    | inr o ↦ back (m', o, end)
  ],
)

none_ends : {A : Type 0} (t : A) (h : (t' : A) × (◌≡◌ {A = Round A} (next t) (return t'))) → ⊥
none_ends t h = let e = h.1 in absurd cc

module _ {Cache Event : Type 0} (env : Env Cache Event) where
  -- Where every READY can be read, the task ends exactly if the stream does or a close message comes
  -- while the proxy shuts down: errors, texts and other close messages leave it running.
  pub events-return_iff :
      (t : Task Cache) (ms : List Incoming)
      → ((p : Text) → Occurs p (texts ms) → Unreadable env p → ⊥)
      → ((t' : Task Cache) × (events env t ms ≡ return t')) ↔ HasEnd ms
  unfolding events round
  events-return_iff t [] readable = (λ h. absurd (none_ends t h), λ h. absurd h.1)
  events-return_iff t (text p ∷ ms) readable = elim (handle_text-cases env t p) [
    | inl e ↦ absurd (readable p (inl refl) (panicked env t p e))
    | inr (t', e) ↦
        rw (e, events)
          (later (text p) ms (λ end. elim end [ inl e ↦ cc | inr e ↦ cc ])
            (events-return_iff t' ms (λ q o. readable q (inr o))))
  ]
  events-return_iff t (close true ∷ ms) readable =
      (λ _. (close true, inl refl, inl refl), λ _. (t, refl))
  events-return_iff t (close false ∷ ms) readable =
      later (close false) ms (λ end. elim end [ inl e ↦ cc | inr e ↦ cc ])
        (events-return_iff t ms readable)
  events-return_iff t (error ∷ ms) readable =
      later error ms (λ end. elim end [ inl e ↦ cc | inr e ↦ cc ]) (events-return_iff t ms readable)
  events-return_iff t (closed ∷ ms) readable = (λ _. (closed, inl refl, inr refl), λ _. (t, refl))
