-- ===== src/Server/Client/Token.antt =====
-- The token check of `handle_client`.
use gateway_proxy.Prelude.{
  ℕ, not, if-elim, ◌==◌, leb, ◌≡◌, ◌≢◌, ◌↔◌, ◌⊎◌, refl, true, false, none, some, List, [], ◌∷◌, inl,
  inr, arith, Option-cases,
}
use gateway_proxy.Text.{Text}
use gateway_proxy.Text.Words.{text_eq_iff, last_word}
use gateway_proxy.Model.{Identify, Resume}
use gateway_proxy.State.{Inner}
use gateway_proxy.Server.Client.{
  Env, World, Message, Arrival, Outcome, next, disconnect, panic, undefined, connected, refuses,
  handle_identify, handle_resume, handle_command, handle_message, handle_client,
}
use gateway_proxy.Server.Client.Binary.{handle_message-undefined_iff}
use gateway_proxy.Server.Client.Panics.{IsSafe, handle_message-IsSafe}
use gateway_proxy.Server.Client.Outcomes.{Holds, Keeps, handle_message-Holds}
use gateway_proxy.Server.Client.Cases.{handle_identify-Holds, handle_resume-Holds, handle_op-Holds}

-- A token passes exactly if the check is off or its last word is the configured token, so also with
-- the prefix `Bot `.
pub refuses_iff :
    (env : Env) (token : Text)
    → (refuses env token ≡ false)
      ↔ ((env.validate_token ≡ false) ⊎ (last_word token ≡ some env.token))
unfolding refuses
refuses_iff env token = elim (Option-cases (last_word token)) [
  | inl e ↦ rw (e, refuses) (λ h. ground arith, λ h. ground arith)
  | inr (word, e) ↦
      rw (e, refuses)
        (
          λ h. ground (arith, text_eq_iff word env.token),
          λ h. ground (arith, text_eq_iff word env.token),
        )
]

-- Some message of the list is a text or a binary message that is not read as a text.
abbrev pub HasUnreadable : {Cache : Type 0} → List (Arrival Cache) → Type 0
HasUnreadable [] = ⊥
HasUnreadable (a ∷ arrivals) =
    ((msg : Message) × (a.msg ≡ some msg)
      × ((msg.is_text ≡ true) ⊎ (msg.is_binary ≡ true))
      × (msg.as_text ≡ none))
    ⊎ HasUnreadable arrivals

module _ {ℓ} {Cache : Type 0} (Q : Inner Cache → Type ℓ) (env : Env) where
  -- No payload of the list carries the configured token, and the other tasks keep `Q`.
  abbrev pub Uninvited : List (Arrival Cache) → Type ℓ
  Uninvited [] = Unit
  Uninvited (a ∷ arrivals) =
      ((msg : Message) (payload : Text)
        → a.msg ≡ some msg
        → msg.as_text ≡ some payload
        → ((identify : Identify)
            → env.identify_from_str payload ≡ some identify
            → last_word identify.d.token ≢ some env.token)
          × ((resume : Resume)
              → env.resume_from_str payload ≡ some resume
              → last_word resume.d.token ≢ some env.token))
      × ((state : Inner Cache) → Q state → Q (a.others state))
      × Uninvited arrivals

  abbrev Outside : World Cache → Type ℓ
  Outside w = (w.1.shard_forward_task ≡ none) × (w.1.shard_sender ≡ none) × Q w.0

  command-Outside :
      (w : World Cache) (payload : Text) → Outside w → Outside (handle_command w payload)
  unfolding handle_command
  command-Outside (state, c) payload h = rw (h.1, handle_command) h

  -- A token that does not match is refused while the check is on.
  refused :
      (token : Text)
      → env.validate_token ≡ true
      → last_word token ≢ some env.token
      → refuses env token ≡ false
      → ⊥
  refused token on wrong allowed = ground (arith, (refuses_iff env token).0 allowed)

  Uninvited-Keeps :
      (arrivals : List (Arrival Cache))
      → env.validate_token ≡ true
      → Uninvited arrivals
      → Keeps Outside env arrivals
  Uninvited-Keeps [] on u = tt
  Uninvited-Keeps (a ∷ arrivals) on u = (
    λ state c h. (h.0, h.1, u.1 state h.2),
    λ msg (state, c) is_msg h.
        handle_message-Holds Outside env a.sample (state, c) msg h
          λ payload event text parsed.
            handle_op-Holds Outside env a.sample state c _ payload (λ _. h)
              (λ _. handle_identify-Holds Outside env a.sample state c payload h λ identify ok.
                absurd (
                  refused identify.d.token on ((u.0 msg payload is_msg text).0 identify ok.parsed)
                    ok.allowed))
              (λ _. handle_resume-Holds Outside env a.sample state c payload h λ resume ok. absurd (
                refused resume.d.token on ((u.0 msg payload is_msg text).1 resume ok.parsed)
                  ok.allowed))
              (λ _ _ _. command-Outside (state, c) payload h),
    Uninvited-Keeps arrivals on u.2,
  )

  handle_identify-IsSafe :
      (sample : ℕ → ℕ) (w : World Cache) (payload : Text)
      → env.validate_token ≡ true
      → ((identify : Identify)
          → env.identify_from_str payload ≡ some identify
          → last_word identify.d.token ≢ some env.token)
      → IsSafe (handle_identify env sample w payload)
  unfolding handle_identify
  handle_identify-IsSafe sample (state, c) payload on wrong =
      elim (Option-cases (env.identify_from_str payload)) [
        | inl e ↦ rw (e, handle_identify) tt
        | inr (identify, e) ↦
            rw (e, handle_identify)
              (if-elim IsSafe (not (identify.d.shard.1 == state.shard_count)) (λ _. tt)
                (λ _.
                  if-elim IsSafe (leb identify.d.shard.1 identify.d.shard.0) (λ _. tt)
                    (λ _.
                      if-elim IsSafe (refuses env identify.d.token) (λ _. tt)
                        (λ allowed.
                          absurd (refused identify.d.token on (wrong identify e) allowed)))))
      ]

  handle_resume-IsSafe :
      (w : World Cache) (payload : Text)
      → env.validate_token ≡ true
      → ((resume : Resume)
          → env.resume_from_str payload ≡ some resume
          → last_word resume.d.token ≢ some env.token)
      → IsSafe (handle_resume env w payload)
  unfolding handle_resume
  handle_resume-IsSafe (state, c) payload on wrong =
      elim (Option-cases (env.resume_from_str payload)) [
        | inl e ↦ rw (e, handle_resume) tt
        | inr (resume, e) ↦
            rw (e, handle_resume)
              (if-elim IsSafe (refuses env resume.d.token) (λ _. tt)
                (λ allowed. absurd (refused resume.d.token on (wrong resume e) allowed)))
      ]

  -- How such a connection ends.
  abbrev Ends : List (Arrival Cache) → Outcome (World Cache) → Type ℓ
  Ends arrivals o =
      ((w : World Cache) × (o ≡ disconnect w)
        × (w.1.shard_forward_task ≡ none)
        × (w.1.shard_sender ≡ none)
        × Q w.0)
      ⊎ ((o ≡ undefined) × HasUnreadable arrivals)

  Uninvited-Ends :
      (w : World Cache) (arrivals : List (Arrival Cache))
      → env.validate_token ≡ true
      → Uninvited arrivals
      → Outside w
      → Ends arrivals (handle_client env w arrivals)
  unfolding handle_client
  Uninvited-Ends w [] on u h = inl (w, refl, h.0, h.1, h.2)
  Uninvited-Ends (state, c) (a ∷ arrivals) on u h = elim (Option-cases a.msg) [
    | inl e ↦ rw (e, handle_client) (inl ((a.others state, c), refl, h.0, h.1, u.1 state h.2))
    | inr (msg, e) ↦
        rw (e, handle_client)
          (go msg (handle_message env a.sample (a.others state, c) msg) refl
            (λ w. Uninvited-Ends w arrivals on u.2)
            ((Uninvited-Keeps (a ∷ arrivals) on u).1 msg (a.others state, c) e
              (h.0, h.1, u.1 state h.2))
            (handle_message-IsSafe env a.sample (a.others state, c) msg
              (λ payload text. (
                handle_identify-IsSafe a.sample (a.others state, c) payload on
                    (u.0 msg payload e text).0,
                handle_resume-IsSafe (a.others state, c) payload on (u.0 msg payload e text).1,
              ))))
  ]
    where
      go :
          (msg : Message) (o : Outcome (World Cache))
          → handle_message env a.sample (a.others state, c) msg ≡ o
          → ((w : World Cache) → Outside w → Ends arrivals (handle_client env w arrivals))
          → Holds Outside o
          → IsSafe o
          → Ends (record a { msg = some msg } ∷ arrivals) (elim o [
            | next w ↦ handle_client env w arrivals
            | disconnect w ↦ disconnect w
            | panic ↦ panic
            | undefined ↦ undefined
          ])
      go msg (next w) ran rest h' safe = elim (rest w h') [
        | inl ended ↦ inl ended
        | inr (lost, unreadable) ↦ inr (lost, inr unreadable)
      ]
      go msg (disconnect w) ran rest h' safe = inl (w, refl, h'.0, h'.1, h'.2)
      go msg panic ran rest h' safe = absurd safe
      go msg undefined ran rest h' safe =
          let (kind, unread) =
            (handle_message-undefined_iff env a.sample (a.others state, c) msg).0 ran in
          inr (refl, inl (msg, refl, kind, unread))

  -- While the check is on, the connection of a client that never sends the configured token ends without
  -- a panic, and it gets no events and no way to send commands, and what the other tasks keep of the
  -- shared state it cannot break: in particular it creates no session; or the behaviour is undefined, and
  -- then it has sent a text or a binary message that is not read as a text.
  pub handle_client-Uninvited :
      (state : Inner Cache) (arrivals : List (Arrival Cache))
      → env.validate_token ≡ true
      → Uninvited arrivals
      → Q state
      → ((w : World Cache) × (handle_client env (state, connected) arrivals ≡ disconnect w)
          × (w.1.shard_forward_task ≡ none)
          × (w.1.shard_sender ≡ none)
          × Q w.0)
        ⊎ ((handle_client env (state, connected) arrivals ≡ undefined) × HasUnreadable arrivals)
  handle_client-Uninvited state arrivals on u q =
      Uninvited-Ends (state, connected) arrivals on u (refl, refl, q)
