-- ===== src/Tests/Clients.antt =====
-- src/server.rs, `handle_client`.
use gateway_proxy.Prelude.{
  ◌⊎◌, ℕ, zero, suc, ◌+◌, ◌≡◌, ◌≢◌, ◌↔◌, refl, true, false, some, none, [], ◌∷◌, inr, arith,
  if◌then◌else◌, get_elem?,
}
use gateway_proxy.Text.{Text, codes, find, get_from, get_to, get_range, starts_with, byte_len}
use gateway_proxy.Text.Number.{from_str}
use gateway_proxy.Text.Words.{text_eq, last_word}
use gateway_proxy.Model.{Identify, Resume, string, get, insert}
use gateway_proxy.Deserializer.{
  GatewayEvent, op_of, from_json, find_opcode, find_sequence, find_event_type, find_integer,
}
use gateway_proxy.State.{Shard, Session, Inner, create_session, take_samples}
use gateway_proxy.State.Readiness.{new}
use gateway_proxy.Server.Client.{
  World, Message, Env, ForwardTask, Client, connected, Arrival, next, disconnect, undefined, write,
  set_sender, heartbeat_ack, refuses, attach, handle_identify, handle_resume, handle_command,
  handle_op, handle_payload, handle_message, handle_client, spawn_forward, send_to,
}
use gateway_proxy.Server.Client.Outcomes.{Holds}
use gateway_proxy.Server.Client.Cases.{Accepted}
use gateway_proxy.Server.Client.Once.{Started, handle_client-forwards_once}
use gateway_proxy.Server.Client.Commands.{senders, handle_client-resume_only}
use gateway_proxy.Server.Client.Token.{HasUnreadable, handle_client-Uninvited}
use gateway_proxy.Server.Client.Shards.{Layout, handle_identify-shard}
use gateway_proxy.Server.Client.Binary.{handle_message-undefined_iff}
use gateway_proxy.Cache.{get_ready_payload}
use gateway_proxy.Server.Forward as Forward
use gateway_proxy.Server.Forward.{session_id_key, new_ready}
use gateway_proxy.Server.Forward.Resuming.{handle_resume-new_ready}
use gateway_proxy.Tests.Caching.{cache}

abbrev pub identify_text : Text
identify_text = codes "{\"op\":2,\"d\":{\"token\":\"Bot abc\",\"shard\":[1,2]}}"

abbrev pub identify : Identify
identify = record { d = record { compress = some true; shard = (1, 2); token = codes "Bot abc" } }

abbrev pub samples : ℕ → ℕ
samples i = b'x'

abbrev pub resume_text : Text
resume_text = codes "{\"op\":6,\"d\":{}}"

abbrev pub resume : Resume
resume = record {
  d = record { session_id = take_samples samples 32; seq = 9; token = codes "abc" };
}

abbrev pub env : Env
env = record {
  validate_token = true;
  token = codes "abc";
  identify_from_str = λ text. if text_eq text identify_text then some identify else none;
  resume_from_str = λ text. if text_eq text resume_text then some resume else none;
}

abbrev shard : ℕ → Shard (Unit {0})
shard id = record { id = id; sender = []; events = []; ready = new; guilds = tt }

-- Two shards, of which the first has the ID `start`.
abbrev state : ℕ → Inner (Unit {0})
state start = record {
  shards = shard start ∷ shard (start + 1) ∷ [];
  shard_count = 2;
  sessions = [];
}

abbrev pub text_message : Text → Message
text_message text = record { is_text = true; is_binary = false; as_text = some text }

abbrev arrival : Text → Arrival (Unit {0})
arrival text = record { others = λ s. s; msg = some (text_message text); sample = samples }

abbrev pub heartbeat_text : Text
heartbeat_text = codes "{\"op\":1,\"d\":null}"

abbrev command_text : Text
command_text = codes "{\"op\":8,\"d\":{}}"

abbrev task : ForwardTask
task = record { session_id = take_samples samples 32; shard = 1; send_guilds = true; seq = 0 }

abbrev session : Session
session = record { shard_id = 1; compress = some true }

abbrev identified : Inner (Unit {0})
identified = record (state 0) { sessions = (take_samples samples 32, session) ∷ [] }

abbrev attached : Client
attached = record connected {
  compress_tx = false;
  compress_rx = some (some true);
  shard_sender = some 1;
  shard_forward_task = some task;
}

refuses-bot_prefix : refuses env (codes "Bot abc") ≡ false
unfolding refuses last_word text_eq
refuses-bot_prefix = refl

handle_identify-identify :
    handle_identify env samples (state 0, connected) identify_text ≡ next (identified, attached)
unfolding handle_identify attach refuses last_word text_eq create_session spawn_forward insert
handle_identify-identify = refl

handle_client-session :
    handle_client env
      (state 0, connected)
      (arrival heartbeat_text ∷ arrival identify_text ∷ arrival command_text ∷ [])
    ≡ disconnect (
      record identified { shards = shard 0 ∷ set_sender (shard 1) command_text ∷ [] },
      write (record attached { outbox = [] }) heartbeat_ack,
    )
unfolding handle_client handle_message handle_payload handle_op handle_identify handle_command
    send_to attach refuses last_word text_eq create_session spawn_forward insert from_json
    find_opcode find_integer from_str find get_from get_to get_range starts_with byte_len
handle_client-session = refl

handle_client-forwards_once_example :
    Holds
      (λ w. Started task (some true) w.1)
      (handle_client env (identified, attached) (arrival identify_text ∷ arrival resume_text ∷ []))
handle_client-forwards_once_example =
    handle_client-forwards_once env identified attached task (some true)
      (arrival identify_text ∷ arrival resume_text ∷ []) (refl, refl, refl)

payload_is :
    (text : Text) (msg : Message) (payload : Text)
    → some (text_message text) ≡ some msg
    → msg.as_text ≡ some payload
    → text ≡ payload
payload_is text msg payload is_msg has = ground arith

not_identify :
    (text : Text) (e : GatewayEvent)
    → from_json text ≡ some e
    → op_of e ≢ 2
    → (msg : Message) (payload : Text) (event : GatewayEvent) → some (text_message text) ≡ some msg
    → msg.as_text ≡ some payload
    → from_json payload ≡ some event
    → op_of event ≢ 2
not_identify text e parsed other msg payload event is_msg has found two =
    ground (arith, payload_is text msg payload is_msg has)

abbrev pub short_event : ℕ → GatewayEvent
short_event op = record {
  event_type = none;
  op = record { op = op; range = record { start = 6; end = 7 } };
  sequence = none;
}

pub resume_event : from_json resume_text ≡ some (short_event 6)
unfolding from_json find_opcode find_sequence find_event_type find_integer from_str find get_from
    get_to get_range starts_with byte_len
resume_event = refl

command_event : from_json command_text ≡ some (short_event 8)
unfolding from_json find_opcode find_sequence find_event_type find_integer from_str find get_from
    get_to get_range starts_with byte_len
command_event = refl

handle_client-resume_only_example :
    Holds
      (λ w. (w.1.shard_sender ≡ none) × (senders w.0 ≡ [] ∷ [] ∷ []))
      (handle_client env (identified, connected) (arrival resume_text ∷ arrival command_text ∷ []))
handle_client-resume_only_example =
    handle_client-resume_only env identified connected
      (arrival resume_text ∷ arrival command_text ∷ []) refl
      (
        not_identify resume_text (short_event 6) resume_event (omega arith),
        λ s. refl,
        (not_identify command_text (short_event 8) command_event (omega arith), λ s. refl, tt),
      )

handle_client-Uninvited_example :
    ((w : World (Unit {0})) × (handle_client env (state 0, connected) (arrival command_text ∷ [])
        ≡ disconnect w)
      × (w.1.shard_forward_task ≡ none)
      × (w.1.shard_sender ≡ none)
      × (w.0.sessions ≡ []))
    ⊎ ((handle_client env (state 0, connected) (arrival command_text ∷ []) ≡ undefined)
        × HasUnreadable (arrival command_text ∷ []))
unfolding text_eq
handle_client-Uninvited_example =
    handle_client-Uninvited (λ s. s.sessions ≡ []) env (state 0) (arrival command_text ∷ []) refl
      (
        λ msg payload is_msg has.
            rw (← payload_is command_text msg payload is_msg has)
              (λ identify parsed. absurd cc, λ resume parsed. absurd cc),
        λ s h. h,
        tt,
      )
      refl

one_shard : Accepted env (record (state 0) { shards = shard 0 ∷ [] }) identify_text identify
unfolding text_eq refuses last_word
one_shard = record { parsed = refl; count_matches = refl; in_range = omega arith; allowed = refl }

two_shards : (start : ℕ) → Layout start (state start).shards
two_shards start zero s e = ground arith
two_shards start (suc zero) s e = ground arith
two_shards start (suc (suc i)) s e = absurd cc

handle_identify-shard_example :
    (task : ForwardTask) × (s : Shard (Unit {0})) × (attached.shard_forward_task ≡ some task)
    × (get_elem? identified.shards task.shard ≡ some s)
    × (s.id ≡ 0 + 1)
    × ((s.id ≡ 1) ↔ ◌≡◌ {A = ℕ} 0 0)
unfolding text_eq
handle_identify-shard_example =
    handle_identify-shard env samples (state 0) identified connected attached identify_text identify
      0 (two_shards 0) refl refl handle_identify-identify

-- The proxy knows no READY here, and has no guilds.
abbrev forward_env : Forward.Env
forward_env = record {
  ready_to_string = λ payload. none;
  guild_to_string = λ payload. [];
  ready_payload = [];
  ready_cache = cache;
  guild_cache = cache;
}

session_id_read :
    get (new_ready forward_env (take_samples samples 32) 0).0.d session_id_key
    ≡ some (string (take_samples samples 32))
unfolding new_ready get_ready_payload get insert text_eq
session_id_read = refl

handle_resume-new_ready_example :
    handle_resume env (identified, connected) resume_text
    ≡ next (
      identified,
      spawn_forward connected
          (record { session_id = take_samples samples 32; shard = 1; send_guilds = false; seq = 9 })
          (some true),
    )
unfolding text_eq refuses last_word
handle_resume-new_ready_example =
    handle_resume-new_ready env samples (state 0) identified identified connected attached connected
      identify_text resume_text identify resume forward_env task refl handle_identify-identify refl
      refl refl refl (record { parsed = refl; allowed = refl }) refl session_id_read

abbrev binary_message : Message
binary_message = record { is_text = false; is_binary = true; as_text = none }

handle_message-undefined_iff_example :
    handle_message env samples (state 0, connected) binary_message ≡ undefined
handle_message-undefined_iff_example =
    (handle_message-undefined_iff env samples (state 0, connected) binary_message).1
      (inr refl, refl)
