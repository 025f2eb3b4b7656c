-- ===== src/Connection/Heartbeats.antt =====
-- The answers to heartbeats.
use gateway_proxy.Prelude.{
  ℕ, ◌+◌, ◌≡◌, ◌≢◌, refl, sym, ap, subst, ◌∙◌, Bool, true, false, not, ◌&&◌, ◌==◌, Option, none,
  some, List, [], ◌∷◌, ◌++◌, if◌then◌else◌, arith, Option-cases, Bool-cases, inl, inr, if-elim,
}
use gateway_proxy.Text.{Text}
use gateway_proxy.Text.Words.{text_eq, text_eq_refl}
use gateway_proxy.Deserializer.{GatewayEvent, from_json, op_of}
use gateway_proxy.Cache.Records.{InMemoryCache}
use gateway_proxy.State.{Inner}
use gateway_proxy.Dispatch as Dispatch
use gateway_proxy.Server.Client as Client
use gateway_proxy.Server.Client.{
  Client, World, Message, write, heartbeat_ack, invalid_session, spawn_forward, handle_command,
  handle_op, handle_payload, handle_message,
}
use gateway_proxy.Server.Client.Outcomes.{Holds}
use gateway_proxy.Server.Client.Cases.{
  attach-Holds, handle_identify-Holds, resume_session-Holds, handle_resume-Holds, handle_op-Holds,
}
use gateway_proxy.Server.Forward.{Env}
use gateway_proxy.Connection.{
  Connection, Event, client_sends, discord_sends, clients_command, shard_forwards, sink_sends,
  sink_fails, opened, take_step, take_steps,
}
use gateway_proxy.Connection.Staying.{Led, take_step-Led, take_steps-opened}
use gateway_proxy.Connection.Logs.{Interleaves}
use gateway_proxy.Connection.Merging.{sent_by}
use gateway_proxy.Connection.Soundness.{take_steps-IsSound}
use gateway_proxy.Connection.Queue.{connect}

-- How many texts are heartbeat ACKs.
abbrev pub acks : List Text → ℕ
acks [] = 0
acks (t ∷ texts) = (if text_eq t heartbeat_ack then 1 else 0) + acks texts

acks-append : (texts new : List Text) → acks (texts ++ new) ≡ acks texts + acks new
acks-append [] new = omega arith
acks-append (t ∷ texts) new = omega (arith, acks-append texts new)

abbrev pub is_beat : Option GatewayEvent → Bool
is_beat none = false
is_beat (some event) = op_of event == 1

-- A data message whose payload has the opcode of a heartbeat.
abbrev pub beats : Message → ℕ
beats msg =
    if not msg.is_text && not msg.is_binary
    then 0
    else elim msg.as_text [ none ↦ 0 | some payload ↦ if is_beat (from_json payload) then 1 else 0 ]

abbrev pub beats_of : Option Message → ℕ
beats_of none = 0
beats_of (some msg) = beats msg

-- How many heartbeats arrive.
abbrev pub beat : Event → ℕ
beat (client_sends a is_ready counted) = beats_of a.msg
beat (discord_sends m) = 0
beat (clients_command texts) = 0
beat shard_forwards = 0
beat sink_sends = 0
beat sink_fails = 0

abbrev pub heartbeats : List Event → ℕ
heartbeats [] = 0
heartbeats (e ∷ es) = beat e + heartbeats es

invalid_session-ack : text_eq invalid_session heartbeat_ack ≡ false
unfolding text_eq
invalid_session-ack = refl

-- The client has sent `n` ACKs more.
abbrev Acked : Client → ℕ → World InMemoryCache → Type 0
Acked c n w = acks w.1.outbox ≡ acks c.outbox + n

module _ (env : Client.Env) (sample : ℕ → ℕ) (state : Inner InMemoryCache) (c : Client) where
  -- Nothing but a heartbeat is answered by an ACK.
  silent :
      (op : ℕ) (texts : List Text)
      → op ≢ 1
      → acks texts ≡ acks c.outbox
      → acks texts ≡ acks c.outbox + (if op == 1 then 1 else 0)
  silent op texts other same = ground arith

  refusal : acks (c.outbox ++ (invalid_session ∷ [])) ≡ acks c.outbox
  refusal = acks-append c.outbox (invalid_session ∷ []) ∙ rw invalid_session-ack (omega arith)

  answer : acks (c.outbox ++ (heartbeat_ack ∷ [])) ≡ acks c.outbox + 1
  answer = acks-append c.outbox (heartbeat_ack ∷ []) ∙ rw (text_eq_refl heartbeat_ack) (omega arith)

  handle_command-silent : (payload : Text) → (handle_command (state, c) payload).1.outbox ≡ c.outbox
  unfolding handle_command
  handle_command-silent payload = ground arith

  handle_op-Acked :
      (op : ℕ) (payload : Text)
      → Holds (Acked c (if op == 1 then 1 else 0)) (handle_op env sample op (state, c) payload)
  unfolding spawn_forward
  handle_op-Acked op payload =
      let P : World InMemoryCache → Type 0 = Acked c (if op == 1 then 1 else 0) in
      handle_op-Holds P env sample state c op payload (λ beat. ground (arith, answer))
        (λ two.
          let kept = silent op c.outbox (λ one. absurd (omega (arith, one, two))) refl in
          handle_identify-Holds P env sample state c payload kept λ identify ok.
            attach-Holds P env sample state c identify λ shard there.
              if-elim (λ (c' : Client). acks c'.outbox ≡ acks c.outbox + (if op == 1 then 1 else 0))
                c.compress_tx (λ _. kept) (λ _. kept))
        (λ six.
          let other : op ≢ 1 = λ one. absurd (omega (arith, one, six)) in
          let kept = silent op c.outbox other refl in
          handle_resume-Holds P env sample state c payload kept λ resume ok.
            resume_session-Holds P env sample state c resume
              (silent op (c.outbox ++ (invalid_session ∷ [])) other refusal)
              λ session shard known there first. kept)
        (λ not_one not_two not_six. silent op _ not_one (ap acks (handle_command-silent payload)))

  handle_payload-Acked :
      (payload : Text)
      → Holds
          (Acked c (if is_beat (from_json payload) then 1 else 0))
          (handle_payload env sample (state, c) payload)
  unfolding handle_payload
  handle_payload-Acked payload = elim (Option-cases (from_json payload)) [
    | inl e ↦ rw (e, handle_payload) (omega arith)
    | inr (event, e) ↦ rw (e, handle_payload) (handle_op-Acked (op_of event) payload)
  ]

  handle_message-Acked :
      (msg : Message) → Holds (Acked c (beats msg)) (handle_message env sample (state, c) msg)
  unfolding handle_message
  handle_message-Acked msg = elim (Bool-cases (not msg.is_text && not msg.is_binary)) [
    | inl other ↦ rw other (omega arith)
    | inr readable ↦ rw readable (elim (Option-cases msg.as_text) [
      | inl e ↦ rw e tt
      | inr (payload, e) ↦ rw e (handle_payload-Acked payload)
    ])
  ]

module _ {Event' : Type 0} (client_env : Client.Env) (env : Env)
    (dispatch_env : Dispatch.Env InMemoryCache Event') (capacity : ℕ) where
  Led-acks :
      (x : Connection) (e : Event) (y : Connection)
      → Led client_env env dispatch_env capacity x e y
      → acks y.world.1.outbox ≡ acks x.world.1.outbox + beat e
  Led-acks x (client_sends a is_ready counted) y (msg, w, at, led, same) =
      ap (λ z. acks z.world.1.outbox) same
      ∙ subst (Holds (Acked x.world.1 (beats msg))) led
          (handle_message-Acked client_env a.sample (a.others x.world.0) x.world.1 msg)
      ∙ ap (λ m. acks x.world.1.outbox + beats_of m) (sym at)
  Led-acks x (discord_sends m) y same = ap (λ w. acks w.1.outbox) same ∙ omega arith
  Led-acks x (clients_command texts) y same = ap (λ w. acks w.1.outbox) same ∙ omega arith
  Led-acks x shard_forwards y same = ap (λ w. acks w.1.outbox) same ∙ omega arith
  Led-acks x sink_fails y same = ap (λ w. acks w.1.outbox) same ∙ omega arith
  Led-acks x sink_sends y same = ap (λ w. acks w.1.outbox) same ∙ omega arith

  take_steps-acks :
      (x : Connection) (es : List Event)
      → (take_steps client_env env dispatch_env capacity x es).is_open ≡ true
      → acks (take_steps client_env env dispatch_env capacity x es).world.1.outbox
        ≡ acks x.world.1.outbox + heartbeats es
  unfolding take_steps
  take_steps-acks x [] is_open = omega arith
  take_steps-acks x (e ∷ es) is_open =
      let y = take_step client_env env dispatch_env capacity x e in
      let first = Led-acks x e y (
        take_step-Led client_env env dispatch_env capacity x e
          (take_steps-opened client_env env dispatch_env capacity y es is_open)) in
      omega (arith, first, take_steps-acks y es is_open)

  -- While a connection is open, whatever else it is sent and whatever the tasks do, the queue of the sink
  -- holds, among what forward_shard has put there and in order, what handle_client has put there, in
  -- which there are exactly as many heartbeat ACKs as the client has sent heartbeats. Whether the sink has
  -- sent them already is not said.
  pub take_steps-heartbeats :
      (state : Inner InMemoryCache) (es : List Event)
      → (connect client_env env dispatch_env capacity state es).is_open ≡ true
      → let x = connect client_env env dispatch_env capacity state es in
        (acks x.world.1.outbox ≡ heartbeats es)
        × (sent : List Text) × Interleaves x.world.1.outbox sent x.queue
  take_steps-heartbeats state es is_open =
      let x = connect client_env env dispatch_env capacity state es in
      (
        take_steps-acks (opened state) es is_open ∙ omega arith,
        sent_by x.forwarding,
        (take_steps-IsSound client_env env dispatch_env capacity state es).merged,
      )
