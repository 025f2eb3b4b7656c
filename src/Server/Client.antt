-- ===== src/Server/Client.antt =====
-- `handle_client` of src/server.rs: what the task of one client does with each message.
pub mod Outcomes
pub mod Panics
pub mod Cases
pub mod Commands
pub mod Once
pub mod Token
pub mod Binary
pub mod Shards
pub mod Resuming
use gateway_proxy.Prelude.{
  ℕ, zero, suc, ◌+◌, Bool, true, false, not, ◌&&◌, ◌||◌, Option, none, some, List, [], ◌∷◌, ◌++◌,
  leb, ◌==◌, if◌then◌else◌, get_elem?,
}
use gateway_proxy.Text.{Text, codes}
use gateway_proxy.Text.Words.{text_eq, last_word}
use gateway_proxy.Deserializer.{from_json, op_of}
use gateway_proxy.Model.{Identify, Resume}
use gateway_proxy.State.{Shard, Session, Inner, get_session, create_session}

abbrev pub heartbeat_ack : Text
heartbeat_ack = codes "{\"t\":null,\"s\":null,\"op\":11,\"d\":null}"

abbrev pub invalid_session : Text
invalid_session = codes "{\"t\":null,\"s\":null,\"op\":9,\"d\":false}"

-- What the code asks of a websocket message.
pub record Message : Type 0 where
  pub is_text : Bool
  pub is_binary : Bool
  pub as_text : Option Text

-- The part of the configuration that is read here, and the JSON library.
pub record Env : Type 0 where
  pub validate_token : Bool
  pub token : Text
  pub identify_from_str : Text → Option Identify
  pub resume_from_str : Text → Option Resume

-- The arguments of a spawned `forward_shard`; the shard is an index of `shards`.
pub record ForwardTask : Type 0 where
  pub session_id : Text
  pub shard : ℕ
  pub send_guilds : Bool
  pub seq : ℕ

-- `compress_tx` says that the sender is still there, `compress_rx` what it has sent. `outbox` is what
-- this task has put into the queue of the sink, oldest first.
pub record Client : Type 0 where
  pub compress_tx : Bool
  pub compress_rx : Option (Option Bool)
  pub shard_sender : Option ℕ
  pub shard_forward_task : Option ForwardTask
  pub outbox : List Text

abbrev pub connected : Client
connected = record {
  compress_tx = true;
  compress_rx = none;
  shard_sender = none;
  shard_forward_task = none;
  outbox = [];
}

-- What a message leads to: the next round of the loop, its end by `break`, a panic, or undefined
-- behaviour.
pub data Outcome (S : Type 0) : Type 0 where
  next : S → Outcome S
  disconnect : S → Outcome S
  panic undefined : Outcome S

abbrev pub write : Client → Text → Client
write c text = record c { outbox = c.outbox ++ (text ∷ []) }

unfoldable pub is_token : Env → Option Text → Bool
is_token env none = false
is_token env (some word) = text_eq word env.token

-- `CONFIG.validate_token && token.split_whitespace().last() != Some(&CONFIG.token)`.
unfoldable pub refuses : Env → Text → Bool
unfolding is_token
refuses env token = env.validate_token && not (is_token env (last_word token))

-- The body of `if let Some(sender) = compress_tx.take()`.
unfoldable pub spawn_forward : Client → ForwardTask → Option Bool → Client
spawn_forward c task compress = record c {
  compress_tx = false;
  shard_forward_task = some task;
  compress_rx = some compress;
}

-- The shared state, and what is the client's own.
abbrev pub World : Type 0 → Type 0
World Cache = Inner Cache × Client

-- What the stream yields: a message, or an error. Before it the other tasks of the proxy have changed
-- the shared state; `sample` holds the random numbers that are drawn while it is handled.
pub record Arrival (Cache : Type 0) : Type 0 where
  pub others : Inner Cache → Inner Cache
  pub msg : Option Message
  pub sample : ℕ → ℕ

module _ {Cache : Type 0} where
  abbrev pub set_sender : Shard Cache → Text → Shard Cache
  set_sender shard text = record shard { sender = shard.sender ++ (text ∷ []) }

  -- A send through the `MessageSender` of a shard.
  unfoldable pub send_to : List (Shard Cache) → ℕ → Text → List (Shard Cache)
  send_to [] i text = []
  send_to (s ∷ shards) zero text = set_sender s text ∷ shards
  send_to (s ∷ shards) (suc i) text = s ∷ send_to shards i text

  unfoldable pub attach : (ℕ → ℕ) → World Cache → Identify → Outcome (World Cache)
  attach sample (state, c) identify =
      let shard_id = identify.d.shard.0 in
      let (state', session_id) =
        create_session sample state
          (record { shard_id = shard_id; compress = identify.d.compress }) in
      let c' = record c { shard_sender = some shard_id } in
      let task : ForwardTask = record {
        session_id = session_id;
        shard = shard_id;
        send_guilds = true;
        seq = 0;
      } in
      elim (get_elem? state'.shards shard_id) [
        | none ↦ panic
        | some shard ↦
            next (state', if c.compress_tx then spawn_forward c' task identify.d.compress else c')
      ]

  -- Opcode 2.
  unfoldable pub handle_identify : Env → (ℕ → ℕ) → World Cache → Text → Outcome (World Cache)
  handle_identify env sample (state, c) payload = elim (env.identify_from_str payload) [
    | none ↦ next (state, c)
    | some identify ↦
        if not (identify.d.shard.1 == state.shard_count)
        then disconnect (state, c)
        else if leb identify.d.shard.1 identify.d.shard.0
        then disconnect (state, c)
        else if refuses env identify.d.token
        then disconnect (state, c)
        else attach sample (state, c) identify
  ]

  unfoldable pub resume_session : World Cache → Resume → Outcome (World Cache)
  resume_session (state, c) resume = elim (get_session state resume.d.session_id) [
    | none ↦ next (state, write c invalid_session)
    | some session ↦ elim (get_elem? state.shards session.shard_id) [
      | none ↦ panic
      | some shard ↦ next (
        state,
        if c.compress_tx
            then spawn_forward c
                (record {
                  session_id = resume.d.session_id;
                  shard = session.shard_id;
                  send_guilds = false;
                  seq = resume.d.seq;
                })
                session.compress
            else write c invalid_session,
      )
    ]
  ]

  -- Opcode 6.
  unfoldable pub handle_resume : Env → World Cache → Text → Outcome (World Cache)
  handle_resume env (state, c) payload = elim (env.resume_from_str payload) [
    | none ↦ next (state, c)
    | some resume ↦
        if refuses env resume.d.token
        then disconnect (state, c)
        else resume_session (state, c) resume
  ]

  -- Every other opcode.
  unfoldable pub handle_command : World Cache → Text → World Cache
  handle_command (state, c) payload = elim c.shard_sender [
    | none ↦ (state, c)
    | some i ↦ (record state { shards = send_to state.shards i payload }, c)
  ]

  unfoldable pub handle_op : Env → (ℕ → ℕ) → ℕ → World Cache → Text → Outcome (World Cache)
  handle_op env sample op (state, c) payload =
      if op == 1
      then next (state, write c heartbeat_ack)
      else if op == 2
      then handle_identify env sample (state, c) payload
      else if op == 6
      then handle_resume env (state, c) payload
      else next (handle_command (state, c) payload)

  unfoldable pub handle_payload : Env → (ℕ → ℕ) → World Cache → Text → Outcome (World Cache)
  handle_payload env sample world payload = elim (from_json payload) [
    | none ↦ next world
    | some deserializer ↦ handle_op env sample (op_of deserializer) world payload
  ]

  -- The body of the loop.
  unfoldable pub handle_message : Env → (ℕ → ℕ) → World Cache → Message → Outcome (World Cache)
  handle_message env sample world msg =
      if not msg.is_text && not msg.is_binary then next world else elim msg.as_text [
        | none ↦ undefined
        | some payload ↦ handle_payload env sample world payload
      ]

  -- The loop ends at an error, at the end of the stream and at a `break`.
  unfoldable pub handle_client : Env → World Cache → List (Arrival Cache) → Outcome (World Cache)
  handle_client env world [] = disconnect world
  handle_client env (state, c) (a ∷ arrivals) = elim a.msg [
    | none ↦ disconnect (a.others state, c)
    | some msg ↦ elim (handle_message env a.sample (a.others state, c) msg) [
      | next world' ↦ handle_client env world' arrivals
      | disconnect world' ↦ disconnect world'
      | panic ↦ panic
      | undefined ↦ undefined
    ]
  ]
