-- ===== src/Server/Client/Commands.antt =====
-- Where the commands of a client go.
use gateway_proxy.Prelude.{
  ℕ, zero, suc, ◌≡◌, ◌≢◌, refl, ◌∙◌, none, some, List, [], ◌∷◌, map, ◌==◌, if◌then◌else◌, arith,
  get_elem?,
}
use mathlib.Core.Option
use gateway_proxy.Text.{Text}
use gateway_proxy.Deserializer.{GatewayEvent, from_json, op_of}
use gateway_proxy.Model.{Identify}
use gateway_proxy.State.{Inner, Shard, create_session}
use gateway_proxy.Server.Client.{
  Client, Env, World, Message, Arrival, next, set_sender, send_to, spawn_forward, attach,
  handle_identify, handle_command, handle_client,
}
use gateway_proxy.Server.Client.Outcomes.{Holds, Keeps, handle_message-Holds, handle_client-Holds}
use gateway_proxy.Server.Client.Cases.{resume_session-Holds, handle_resume-Holds, handle_op-Holds}

module _ {Cache : Type 0} where
  get_elem?-send_to :
      (shards : List (Shard Cache)) (i j : ℕ) (text : Text)
      → get_elem? (send_to shards i text) j ≡ (
          if i == j
          then Option.map (λ s. set_sender s text) (get_elem? shards j)
          else get_elem? shards j)
  unfolding send_to
  get_elem?-send_to [] i j text = ground arith
  get_elem?-send_to (s ∷ shards) zero zero text = refl
  get_elem?-send_to (s ∷ shards) zero (suc j) text = ground arith
  get_elem?-send_to (s ∷ shards) (suc i) zero text = ground arith
  get_elem?-send_to (s ∷ shards) (suc i) (suc j) text =
      ground (arith, get_elem?-send_to shards i j text)

  handle_identify-sender :
      (env : Env) (sample : ℕ → ℕ) (state state' : Inner Cache) (c c' : Client) (payload : Text)
      (identify : Identify)
      → env.identify_from_str payload ≡ some identify
      → handle_identify env sample (state, c) payload ≡ next (state', c')
      → (c'.shard_sender ≡ some identify.d.shard.0) × (state'.shards ≡ state.shards)
  unfolding handle_identify attach create_session spawn_forward
  handle_identify-sender env sample state state' c c' payload identify parsed done = ground arith

  -- Once an IDENTIFY for shard `i` was accepted, a command of the client is appended to what the shard
  -- at index `i` is sent, and no other shard is sent anything.
  pub handle_command-handle_identify :
      (env : Env) (sample : ℕ → ℕ) (state state' : Inner Cache) (c c' : Client)
      (payload text : Text) (identify : Identify) (j : ℕ)
      → env.identify_from_str payload ≡ some identify
      → handle_identify env sample (state, c) payload ≡ next (state', c')
      → get_elem? (handle_command (state', c') text).0.shards j ≡ (
          if identify.d.shard.0 == j
          then Option.map (λ s. set_sender s text) (get_elem? state.shards j)
          else get_elem? state.shards j)
  unfolding handle_command
  handle_command-handle_identify env sample state state' c c' payload text identify j parsed done =
      let (sends, same) =
        handle_identify-sender env sample state state' c c' payload identify parsed done in
      rw (sends, handle_command, same) (get_elem?-send_to state.shards identify.d.shard.0 j text)

  abbrev pub senders : Inner Cache → List (List Text)
  senders state = map (λ s. s.sender) state.shards

  -- No message of the list is an IDENTIFY, and the other tasks send nothing to Discord.
  abbrev pub NoIdentify : List (Arrival Cache) → Type 0
  NoIdentify [] = Unit {0}
  NoIdentify (a ∷ arrivals) =
      ((msg : Message) (payload : Text) (event : GatewayEvent)
        → a.msg ≡ some msg
        → msg.as_text ≡ some payload
        → from_json payload ≡ some event
        → op_of event ≢ 2)
      × ((state : Inner Cache) → senders (a.others state) ≡ senders state)
      × NoIdentify arrivals

  -- The client has nowhere to send commands, and nothing was sent.
  abbrev Silent : List (List Text) → World Cache → Type 0
  Silent sent w = (w.1.shard_sender ≡ none) × (senders w.0 ≡ sent)

  command-Silent :
      (sent : List (List Text)) (w : World Cache) (payload : Text)
      → Silent sent w
      → Silent sent (handle_command w payload)
  unfolding handle_command
  command-Silent sent (state, c) payload h = rw (h.0, handle_command) h

  NoIdentify-Keeps :
      (env : Env) (sent : List (List Text)) (arrivals : List (Arrival Cache))
      → NoIdentify arrivals
      → Keeps (Silent sent) env arrivals
  unfolding spawn_forward
  NoIdentify-Keeps env sent [] no_identify = tt
  NoIdentify-Keeps env sent (a ∷ arrivals) n = (
    λ state c h. (h.0, n.1 state ∙ h.1),
    λ msg (state, c) is_msg h.
        handle_message-Holds (Silent sent) env a.sample (state, c) msg h
          λ payload event text parsed.
            handle_op-Holds (Silent sent) env a.sample state c _ payload (λ _. h)
              (λ two. absurd (n.0 msg payload event is_msg text parsed two))
              (λ _. handle_resume-Holds (Silent sent) env a.sample state c payload h λ resume ok.
                resume_session-Holds (Silent sent) env a.sample state c resume h
                  λ session shard known there first. h)
              (λ _ _ _. command-Silent sent (state, c) payload h),
    NoIdentify-Keeps env sent arrivals n.2,
  )

  -- A client that never sends an IDENTIFY, such as one that resumes its session, reaches no shard:
  -- through a whole connection nothing that it sends is handed to Discord.
  pub handle_client-resume_only :
      (env : Env) (state : Inner Cache) (c : Client) (arrivals : List (Arrival Cache))
      → c.shard_sender ≡ none
      → NoIdentify arrivals
      → Holds
          (λ w. (w.1.shard_sender ≡ none) × (senders w.0 ≡ senders state))
          (handle_client env (state, c) arrivals)
  handle_client-resume_only env state c arrivals h n =
      handle_client-Holds (Silent (senders state)) env (state, c) arrivals
        (NoIdentify-Keeps env (senders state) arrivals n) (h, refl)
