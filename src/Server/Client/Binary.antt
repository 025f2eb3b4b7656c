-- ===== src/Server/Client/Binary.antt =====
-- Messages that are no text.
use gateway_proxy.Prelude.{
  ℕ, ◌≡◌, ◌↔◌, ◌⊎◌, inl, inr, subst, true, not, ◌&&◌, none, some, Option-cases, if-elim, ◌==◌, leb,
  get_elem?, arith,
}
use gateway_proxy.Deserializer.{from_json, op_of}
use gateway_proxy.Text.{Text}
use gateway_proxy.Model.{Identify, Resume}
use gateway_proxy.State.{get_session, create_session}
use gateway_proxy.Server.Client.{
  Env, Message, World, Outcome, next, disconnect, panic, undefined, refuses, attach,
  handle_identify, resume_session, handle_resume, handle_op, handle_payload, handle_message,
}

abbrev Defined : {S : Type 0} → Outcome S → Type 0
Defined (next w) = Unit
Defined (disconnect w) = Unit
Defined panic = Unit
Defined undefined = ⊥

module _ {Cache : Type 0} (env : Env) (sample : ℕ → ℕ) where
  attach-Defined : (w : World Cache) (identify : Identify) → Defined (attach sample w identify)
  unfolding attach create_session
  attach-Defined (state, c) identify =
      elim (Option-cases (get_elem? state.shards identify.d.shard.0)) [
        | inl e ↦ rw (e, attach) tt
        | inr (shard, e) ↦ rw (e, attach) tt
      ]

  handle_identify-Defined :
      (w : World Cache) (payload : Text) → Defined (handle_identify env sample w payload)
  unfolding handle_identify
  handle_identify-Defined (state, c) payload = elim (Option-cases (env.identify_from_str payload)) [
    | inl e ↦ rw (e, handle_identify) tt
    | inr (identify, e) ↦
        rw (e, handle_identify)
          (if-elim Defined (not (identify.d.shard.1 == state.shard_count)) (λ _. tt)
            (λ _.
              if-elim Defined (leb identify.d.shard.1 identify.d.shard.0) (λ _. tt)
                (λ _.
                  if-elim Defined (refuses env identify.d.token) (λ _. tt)
                    (λ _. attach-Defined (state, c) identify))))
  ]

  resume_session-Defined : (w : World Cache) (resume : Resume) → Defined (resume_session w resume)
  unfolding resume_session
  resume_session-Defined (state, c) resume =
      elim (Option-cases (get_session state resume.d.session_id)) [
        | inl e ↦ rw (e, resume_session) tt
        | inr (session, e) ↦ elim (Option-cases (get_elem? state.shards session.shard_id)) [
          | inl e' ↦ rw (e, resume_session) (rw e' tt)
          | inr (shard, e') ↦ rw (e, resume_session) (rw e' tt)
        ]
      ]

  handle_resume-Defined : (w : World Cache) (payload : Text) → Defined (handle_resume env w payload)
  unfolding handle_resume
  handle_resume-Defined (state, c) payload = elim (Option-cases (env.resume_from_str payload)) [
    | inl e ↦ rw (e, handle_resume) tt
    | inr (resume, e) ↦
        rw (e, handle_resume)
          (if-elim Defined (refuses env resume.d.token) (λ _. tt)
            (λ _. resume_session-Defined (state, c) resume))
  ]

  handle_payload-Defined :
      (w : World Cache) (payload : Text) → Defined (handle_payload env sample w payload)
  unfolding handle_payload handle_op
  handle_payload-Defined (state, c) payload = elim (Option-cases (from_json payload)) [
    | inl e ↦ rw (e, handle_payload) tt
    | inr (event, e) ↦
        rw (e, handle_payload)
          (if-elim Defined (op_of event == 1) (λ _. tt)
            (λ _.
              if-elim Defined (op_of event == 2) (λ _. handle_identify-Defined (state, c) payload)
                (λ _.
                  if-elim Defined (op_of event == 6) (λ _. handle_resume-Defined (state, c) payload)
                    (λ _. tt))))
  ]

  -- The behaviour of a message is undefined exactly if it is a text or a binary message that is not read
  -- as a text.
  pub handle_message-undefined_iff :
      (w : World Cache) (msg : Message)
      → (handle_message env sample w msg ≡ undefined)
        ↔ (((msg.is_text ≡ true) ⊎ (msg.is_binary ≡ true)) × (msg.as_text ≡ none))
  unfolding handle_message
  handle_message-undefined_iff w msg = elim (Option-cases msg.as_text) [
    | inl e ↦ (λ h. (ground (arith, e), e), λ (kind, _). ground (arith, e))
    | inr (payload, e) ↦
        (λ h. absurd (subst Defined h (readable payload e)), λ (_, e'). absurd (ground (arith, e)))
  ]
    where
      readable :
          (payload : Text) → msg.as_text ≡ some payload → Defined (handle_message env sample w msg)
      readable payload e =
          if-elim Defined (not msg.is_text && not msg.is_binary) (λ _. tt)
            (λ _. rw e (handle_payload-Defined w payload))
