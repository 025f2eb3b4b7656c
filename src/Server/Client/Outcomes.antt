-- ===== src/Server/Client/Outcomes.antt =====
-- Properties of the world that a message, or a whole connection, leaves behind.
use gateway_proxy.Prelude.{
  ℕ, ◌≡◌, inl, inr, not, ◌&&◌, some, List, [], ◌∷◌, Option-cases, Bool-cases,
}
use gateway_proxy.Deserializer.{GatewayEvent, from_json, op_of}
use gateway_proxy.Text.{Text}
use gateway_proxy.State.{Inner}
use gateway_proxy.Server.Client.{
  Client, Env, Message, World, Arrival, Outcome, next, disconnect, panic, undefined, handle_op,
  handle_payload, handle_message, handle_client,
}

-- `P` holds of the world that is left, if one is.
abbrev pub Holds {ℓ} : {S : Type 0} → (S → Type ℓ) → Outcome S → Type ℓ
Holds P (next w) = P w
Holds P (disconnect w) = P w
Holds P panic = Unit
Holds P undefined = Unit

pub Holds-map {ℓ κ} :
    {S : Type 0} {P : S → Type ℓ} {Q : S → Type κ} (o : Outcome S)
    → ((w : S) → P w → Q w)
    → Holds P o
    → Holds Q o
Holds-map (next w) f h = f w h
Holds-map (disconnect w) f h = f w h
Holds-map panic f h = tt
Holds-map undefined f h = tt

module _ {ℓ} {Cache : Type 0} (P : World Cache → Type ℓ) (env : Env) where
  by_payload :
      (sample : ℕ → ℕ) (w : World Cache) (payload : Text)
      → P w
      → ((event : GatewayEvent)
          → from_json payload ≡ some event
          → Holds P (handle_op env sample (op_of event) w payload))
      → Holds P (handle_payload env sample w payload)
  unfolding handle_payload
  by_payload sample w payload h by_op = elim (Option-cases (from_json payload)) [
    | inl e ↦ rw (e, handle_payload) h
    | inr (event, e) ↦ rw (e, handle_payload) (by_op event e)
  ]

  -- What a message does is nothing, or what `handle_op` does with its payload.
  pub handle_message-Holds :
      (sample : ℕ → ℕ) (w : World Cache) (msg : Message)
      → P w
      → ((payload : Text) (event : GatewayEvent)
          → msg.as_text ≡ some payload
          → from_json payload ≡ some event
          → Holds P (handle_op env sample (op_of event) w payload))
      → Holds P (handle_message env sample w msg)
  unfolding handle_message
  handle_message-Holds sample w msg h by_op =
      elim (Bool-cases (not msg.is_text && not msg.is_binary)) [
        | inl other ↦ rw other h
        | inr data_message ↦ rw data_message (elim (Option-cases msg.as_text) [
          | inl e ↦ rw e tt
          | inr (payload, e) ↦ rw e (by_payload sample w payload h (λ event. by_op payload event e))
        ])
      ]

  -- The other tasks and the messages of the list keep `P`.
  abbrev pub Keeps : List (Arrival Cache) → Type ℓ
  Keeps [] = Unit
  Keeps (a ∷ arrivals) =
      ((state : Inner Cache) (c : Client) → P (state, c) → P (a.others state, c))
      × ((msg : Message) (w : World Cache)
          → a.msg ≡ some msg
          → P w
          → Holds P (handle_message env a.sample w msg))
      × Keeps arrivals

  -- An invariant of the messages is one of the connection.
  pub handle_client-Holds :
      (w : World Cache) (arrivals : List (Arrival Cache))
      → Keeps arrivals
      → P w
      → Holds P (handle_client env w arrivals)
  unfolding handle_client
  handle_client-Holds w [] k h = h
  handle_client-Holds (state, c) (a ∷ arrivals) k h = elim (Option-cases a.msg) [
    | inl e ↦ rw (e, handle_client) (k.0 state c h)
    | inr (msg, e) ↦
        rw (e, handle_client)
          (go (handle_message env a.sample (a.others state, c) msg)
            (k.1 msg (a.others state, c) e (k.0 state c h))
            (λ w. handle_client-Holds w arrivals k.2))
  ]
    where
      go :
          (o : Outcome (World Cache))
          → Holds P o
          → ((w : World Cache) → P w → Holds P (handle_client env w arrivals))
          → Holds P (elim o [
            | next w ↦ handle_client env w arrivals
            | disconnect w ↦ disconnect w
            | panic ↦ panic
            | undefined ↦ undefined
          ])
      go (next w) h rest = rest w h
      go (disconnect w) h rest = h
      go panic h rest = tt
      go undefined h rest = tt

-- A property of the client alone, which each message keeps, is kept by every connection.
module _ {ℓ} {Cache : Type 0} (P : Client → Type ℓ) (env : Env) where
  Keeps-client :
      ((sample : ℕ → ℕ) (w : World Cache) (msg : Message)
        → P w.1
        → Holds (λ w. P w.1) (handle_message env sample w msg))
      → (arrivals : List (Arrival Cache)) → Keeps (λ w. P w.1) env arrivals
  Keeps-client step [] = tt
  Keeps-client step (a ∷ arrivals) =
      (λ state c h. h, λ msg w e h. step a.sample w msg h, Keeps-client step arrivals)

  pub handle_client-Holds_client :
      (state : Inner Cache) (c : Client) (arrivals : List (Arrival Cache))
      → ((sample : ℕ → ℕ) (w : World Cache) (msg : Message)
          → P w.1
          → Holds (λ w. P w.1) (handle_message env sample w msg))
      → P c
      → Holds (λ w. P w.1) (handle_client env (state, c) arrivals)
  handle_client-Holds_client state c arrivals step h =
      handle_client-Holds (λ w. P w.1) env (state, c) arrivals (Keeps-client step arrivals) h
