-- ===== src/Server/Forward/Continue.antt =====
-- `forward_shard` of src/server.rs where it goes on with more messages.
use gateway_proxy.Prelude.{
  ℕ, ◌≡◌, refl, sym, ◌∙◌, ap, Option, none, some, List, [], ◌∷◌, ◌++◌, inl, inr, Option-cases,
  list_laws, ◌>>=◌,
}
use gateway_proxy.Text.{Text}
use gateway_proxy.State.{BroadcastMessage}
use gateway_proxy.Server.Client.{ForwardTask}
use gateway_proxy.Server.Forward.{
  Received, ok, lagged, closed, Env, greeting, renumber, forward, forward_shard,
}

-- Behind payloads that were sent before.
abbrev pub behind : List Text → Option (List Text × ℕ) → Option (List Text × ℕ)
behind payloads none = none
behind payloads (some (payloads', seq)) = some (payloads ++ payloads', seq)

abbrev pub continue : List Received → Option (List Text × ℕ) → Option (List Text × ℕ)
continue received none = none
continue received (some (payloads, seq)) = behind payloads (forward received seq)

behind-nil : (r : Option (List Text × ℕ)) → behind [] r ≡ r
behind-nil none = refl
behind-nil (some r) = refl

behind-append :
    (ps qs : List Text) (r : Option (List Text × ℕ)) → behind ps (behind qs r) ≡ behind (ps ++ qs) r
behind-append ps qs none = refl
behind-append ps qs (some (rs, seq)) = simp list_laws

continue-behind :
    (ps : List Text) (after : List Received) (r : Option (List Text × ℕ))
    → continue after (behind ps r) ≡ behind ps (continue after r)
continue-behind ps after none = refl
continue-behind ps after (some (qs, seq)) = sym (behind-append ps qs (forward after seq))

pub forward-behind :
    (m : BroadcastMessage) (received : List Received) (seq : ℕ) (payload : Text) (seq' : ℕ)
    → renumber m seq ≡ some (payload, seq')
    → forward (ok m ∷ received) seq ≡ behind (payload ∷ []) (forward received seq')
unfolding forward
forward-behind m received seq payload seq' e = rw e (go (forward received seq'))
  where
    go :
        (r : Option (List Text × ℕ))
        → (r >>= (λ (payloads, last). some (payload ∷ payloads, last))) ≡ behind (payload ∷ []) r
    go none = refl
    go (some r) = refl

pub forward-none :
    (m : BroadcastMessage) (received : List Received) (seq : ℕ)
    → renumber m seq ≡ none
    → forward (ok m ∷ received) seq ≡ none
unfolding forward
forward-none m received seq e = rw e refl

-- The loop goes on where it has stopped.
forward-append :
    (before after : List Received) (seq : ℕ)
    → forward (before ++ after) seq ≡ continue after (forward before seq)
unfolding forward
forward-append [] after seq = sym (behind-nil (forward after seq))
forward-append (ok m ∷ before) after seq = elim (Option-cases (renumber m seq)) [
  | inl e ↦
      forward-none m (before ++ after) seq e
      ∙ ap (continue after) (sym (forward-none m before seq e))
  | inr ((payload, seq'), e) ↦
      forward-behind m (before ++ after) seq payload seq' e
      ∙ (ap (behind (payload ∷ [])) (forward-append before after seq')
          ∙ (sym (continue-behind (payload ∷ []) after (forward before seq'))
              ∙ ap (continue after) (sym (forward-behind m before seq payload seq' e))))
]
forward-append (lagged amt ∷ before) after seq = forward-append before after seq
forward-append (closed ∷ before) after seq = forward-append before after seq

module _ (env : Env) (task : ForwardTask) where
  pub forward_shard-behind :
      (received : List Received)
      → forward_shard env task received
        ≡ behind (greeting env task).0 (forward received (greeting env task).1)
  unfolding forward_shard
  forward_shard-behind received = go (forward received (greeting env task).1)
    where
      go :
          (r : Option (List Text × ℕ))
          → (r >>= (λ (payloads, last). some ((greeting env task).0 ++ payloads, last)))
            ≡ behind (greeting env task).0 r
      go none = refl
      go (some r) = refl

  pub forward_shard-append :
      (before after : List Received)
      → forward_shard env task (before ++ after) ≡ continue after (forward_shard env task before)
  forward_shard-append before after =
      let (first, seq) = greeting env task in
      forward_shard-behind (before ++ after)
      ∙ (ap (behind first) (forward-append before after seq)
          ∙ (sym (continue-behind first after (forward before seq))
              ∙ ap (continue after) (sym (forward_shard-behind before))))
