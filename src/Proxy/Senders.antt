-- ===== src/Proxy/Senders.antt =====
-- What the message of a client does to the shards.
use gateway_proxy.Prelude.{
  ℕ, zero, suc, ◌≡◌, refl, ap, ◌∙◌, some, List, [], ◌∷◌, inl, inr, Option-cases, get_elem?,
}
use mathlib.Core.Option
use gateway_proxy.Text.{Text}
use gateway_proxy.State.{Shard, create_session}
use gateway_proxy.Server.Client as Client
use gateway_proxy.Server.Client.{
  World, Message, set_sender, send_to, handle_command, handle_message,
}
use gateway_proxy.Server.Client.Outcomes.{Holds, handle_message-Holds}
use gateway_proxy.Server.Client.Cases.{
  attach-Holds, handle_identify-Holds, resume_session-Holds, handle_resume-Holds, handle_op-Holds,
}

module _ {Cache : Type 0} where
  -- The shards are the same but for their senders.
  abbrev pub OnlySenders : List (Shard Cache) → List (Shard Cache) → Type 0
  OnlySenders [] [] = Unit {0}
  OnlySenders [] (s' ∷ shards') = ⊥
  OnlySenders (s ∷ shards) [] = ⊥
  OnlySenders (s ∷ shards) (s' ∷ shards') =
      (s' ≡ record s { sender = s'.sender }) × OnlySenders shards shards'

  pub OnlySenders-refl : (shards : List (Shard Cache)) → OnlySenders shards shards
  OnlySenders-refl [] = tt
  OnlySenders-refl (s ∷ shards) = (refl, OnlySenders-refl shards)

  pub get_elem?-OnlySenders :
      (shards shards' : List (Shard Cache)) (k : ℕ) (s : Shard Cache)
      → OnlySenders shards shards'
      → get_elem? shards k ≡ some s
      → (s' : Shard Cache) × (get_elem? shards' k ≡ some s')
        × (s' ≡ record s { sender = s'.sender })
  get_elem?-OnlySenders [] shards' k s only at = absurd cc
  get_elem?-OnlySenders (s₀ ∷ shards) [] k s only at = absurd only
  get_elem?-OnlySenders (s₀ ∷ shards) (s' ∷ shards') zero s only at = (
    s',
    refl,
    only.0 ∙ ap (λ (t : Shard Cache). record t { sender = s'.sender }) (Option.some_inj.0 at),
  )
  get_elem?-OnlySenders (s₀ ∷ shards) (s' ∷ shards') (suc k) s only at =
      get_elem?-OnlySenders shards shards' k s only.1 at

  pub send_to-OnlySenders :
      (shards : List (Shard Cache)) (i : ℕ) (text : Text)
      → OnlySenders shards (send_to shards i text)
  unfolding send_to
  send_to-OnlySenders [] i text = tt
  send_to-OnlySenders (s ∷ shards) zero text = (refl, OnlySenders-refl shards)
  send_to-OnlySenders (s ∷ shards) (suc i) text = (refl, send_to-OnlySenders shards i text)

  handle_command-OnlySenders :
      (w : World Cache) (payload : Text)
      → OnlySenders w.0.shards (handle_command w payload).0.shards
  unfolding handle_command
  handle_command-OnlySenders (state, c) payload = elim (Option-cases c.shard_sender) [
    | inl e ↦ rw (e, handle_command) (OnlySenders-refl state.shards)
    | inr (i, e) ↦ rw (e, handle_command) (send_to-OnlySenders state.shards i payload)
  ]

  pub handle_message-OnlySenders :
      (env : Client.Env) (sample : ℕ → ℕ) (w : World Cache) (msg : Message)
      → Holds (λ w'. OnlySenders w.0.shards w'.0.shards) (handle_message env sample w msg)
  unfolding create_session
  handle_message-OnlySenders env sample (state, c) msg =
      let P : World Cache → Type 0 = λ w'. OnlySenders state.shards w'.0.shards in
      let same = OnlySenders-refl state.shards in
      handle_message-Holds P env sample (state, c) msg same
        λ payload event _ _.
          handle_op-Holds P env sample state c _ payload (λ _. same)
            (λ _.
              handle_identify-Holds P env sample state c payload same
                λ identify ok. attach-Holds P env sample state c identify λ shard there. same)
            (λ _. handle_resume-Holds P env sample state c payload same λ resume ok.
              resume_session-Holds P env sample state c resume same
                λ session shard known there first. same)
            (λ _ _ _. handle_command-OnlySenders (state, c) payload)
