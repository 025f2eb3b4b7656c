-- ===== src/Server/Client/Panics.antt =====
-- Which messages of a client make `handle_client` panic.
use gateway_proxy.Prelude.{
  ℕ, ◌≡◌, ◌≢◌, subst, not, some, inl, inr, Option-cases, if-elim, ◌==◌, ◌&&◌,
}
use gateway_proxy.Text.{Text}
use gateway_proxy.Deserializer.{from_json, op_of}
use gateway_proxy.Server.Client.{
  Env, World, Message, Outcome, panic, handle_identify, handle_resume, handle_op, handle_payload,
  handle_message,
}

abbrev pub IsSafe : {S : Type 0} → Outcome S → Type 0
IsSafe panic = ⊥
IsSafe _ = Unit {0}

pub IsSafe-no_panic : {S : Type 0} (o : Outcome S) → IsSafe o → o ≢ panic
IsSafe-no_panic o safe e = subst IsSafe e safe

module _ {Cache : Type 0} (env : Env) (sample : ℕ → ℕ) (w : World Cache) where
  handle_op-IsSafe :
      (op : ℕ) (payload : Text)
      → IsSafe (handle_identify env sample w payload)
      → IsSafe (handle_resume env w payload)
      → IsSafe (handle_op env sample op w payload)
  unfolding handle_op
  handle_op-IsSafe op payload identify resume =
      if-elim IsSafe (op == 1) (λ _. tt)
        (λ _.
          if-elim IsSafe (op == 2) (λ _. identify)
            (λ _. if-elim IsSafe (op == 6) (λ _. resume) (λ _. tt)))

  handle_payload-IsSafe :
      (payload : Text)
      → IsSafe (handle_identify env sample w payload)
      → IsSafe (handle_resume env w payload)
      → IsSafe (handle_payload env sample w payload)
  unfolding handle_payload
  handle_payload-IsSafe payload identify resume = elim (Option-cases (from_json payload)) [
    | inl e ↦ rw (e, handle_payload) tt
    | inr (event, e) ↦
        rw (e, handle_payload) (handle_op-IsSafe (op_of event) payload identify resume)
  ]

  -- A message does not panic where its text does not as an IDENTIFY or a RESUME.
  pub handle_message-IsSafe :
      (msg : Message)
      → ((payload : Text)
          → msg.as_text ≡ some payload
          → IsSafe (handle_identify env sample w payload) × IsSafe (handle_resume env w payload))
      → IsSafe (handle_message env sample w msg)
  unfolding handle_message
  handle_message-IsSafe msg safe =
      if-elim IsSafe (not msg.is_text && not msg.is_binary) (λ _. tt)
        (λ _. elim (Option-cases msg.as_text) [
          | inl e ↦ rw e tt
          | inr (payload, e) ↦
              let (identify, resume) = safe payload e in
              rw e (handle_payload-IsSafe payload identify resume)
        ])
