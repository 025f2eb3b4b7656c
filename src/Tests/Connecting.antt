-- ===== src/Tests/Connecting.antt =====
-- A connection: a client that sends a heartbeat and identifies, and one that resumes an unknown session.
use gateway_proxy.Prelude.{◌≡◌, refl, true, false, some, List, [], ◌∷◌, ◌++◌}
use gateway_proxy.Text.{
  Text, find, get_from, get_to, get_range, starts_with, byte_len, is_whitespace, as_bytes, utf8,
}
use gateway_proxy.Text.Number.{from_str}
use gateway_proxy.Text.Words.{text_eq, last_word}
use gateway_proxy.Deserializer.{
  from_json, find_opcode, find_sequence, find_event_type, find_integer,
}
use gateway_proxy.Model.{get, insert}
use gateway_proxy.Cache.Records.{InMemoryCache}
use gateway_proxy.State.{Inner, get_session, create_session, take_samples}
use gateway_proxy.State.Readiness.{new, set_ready, is_ready}
use gateway_proxy.State.Waiting.{advance_at}
use gateway_proxy.Server.Client.{
  Arrival, ForwardTask, invalid_session, refuses, attach, handle_identify, handle_op,
  handle_payload, handle_message, spawn_forward,
}
use gateway_proxy.Server.Forward.{forward_shard}
use gateway_proxy.System.{
  receiving, System, spawned, wait, send_ready, send_guilds, subscribe, forward_at, forward_step,
}
use gateway_proxy.Connection.{
  Connection, Event, client_sends, shard_forwards, sink_sends, added, start_forwarding, settle,
  forwarded, sink_step, send_next, client_step, shard_step, open_step, take_step, take_steps,
}
use gateway_proxy.Connection.Logs.{Interleaves}
use gateway_proxy.Connection.Queue.{connect, take_steps-forward_shard}
use gateway_proxy.Connection.Unheard.{Unknown, take_steps-Unknown}
use gateway_proxy.Connection.Heartbeats.{acks, heartbeats, take_steps-heartbeats}
use gateway_proxy.Tests.Clients as Clients
use gateway_proxy.Tests.Clients.{
  samples, text_message, heartbeat_text, identify_text, resume_text, resume,
}
use gateway_proxy.Tests.Forwarding as Forwarding
use gateway_proxy.Tests.Interleaving.{env, live}

abbrev pub state : Inner InMemoryCache
state = record { shards = live.shard ∷ live.shard ∷ []; shard_count = 2; sessions = [] }

abbrev pub arrival : Text → Arrival InMemoryCache
arrival text = record { others = λ s. s; msg = some (text_message text); sample = samples }

abbrev pub sends : Text → Event
sends text = client_sends (arrival text) true []

abbrev after : List Event → Connection
after es = connect Clients.env Forwarding.env env 2 state es

-- A heartbeat before the IDENTIFY and one among the steps of `forward_shard`.
abbrev pub session : List Event
session =
    sends heartbeat_text
    ∷ sink_sends
    ∷ sends identify_text
    ∷ shard_forwards
    ∷ shard_forwards
    ∷ shard_forwards
    ∷ sends heartbeat_text
    ∷ sink_sends
    ∷ shard_forwards
    ∷ shard_forwards
    ∷ []

abbrev pub task : ForwardTask
task = record { session_id = take_samples samples 32; shard = 1; send_guilds = true; seq = 0 }

abbrev steps : System → System
steps s = forward_step task 2 (forward_step task 2 s)

abbrev pub receives : System
receives = forward_step task 2 (steps (steps (spawned live Forwarding.env task)))

session_is :
    ((after session).forwarding ≡ some (task, receives))
    × ((after session).is_open ≡ true)
    × ((after session).sending ≡ true)
    × ((after session).greeted ≡ true)
    × ((after session).world.1.compress_tx ≡ false)
unfolding take_steps take_step open_step client_step shard_step sink_step send_next settle forwarded
    start_forwarding added handle_message handle_payload handle_op handle_identify attach refuses
    last_word text_eq create_session spawn_forward insert from_json find_opcode find_sequence
    find_event_type find_integer from_str find get_from get_to get_range starts_with byte_len
    is_whitespace as_bytes utf8 forward_at advance_at is_ready wait send_ready send_guilds subscribe
    set_ready new
session_is = (refl, refl, refl, refl, refl)

session_receives : receives.place ≡ receiving 0
unfolding forward_at advance_at is_ready wait send_ready send_guilds subscribe set_ready new
session_receives = refl

take_steps-forward_shard_example :
    let x = after session in
    (x.world.1.shard_forward_task ≡ some task)
    × (sent : List Text) × Interleaves x.world.1.outbox sent x.queue
    × (forward_shard receives.env task receives.received ≡ some (sent, receives.seq))
take_steps-forward_shard_example =
    take_steps-forward_shard Clients.env Forwarding.env env 2 state session task receives 0
      session_is.0 session_receives

heartbeats-session : heartbeats session ≡ 2
unfolding from_json find_opcode find_sequence find_event_type find_integer from_str find get_from
    get_to get_range starts_with byte_len is_whitespace as_bytes utf8
heartbeats-session = refl

take_steps-heartbeats_example :
    (acks (after session).world.1.outbox ≡ heartbeats session)
    × (sent : List Text) × Interleaves (after session).world.1.outbox sent (after session).queue
take_steps-heartbeats_example =
    take_steps-heartbeats Clients.env Forwarding.env env 2 state session session_is.1

-- Nothing is known of a session here.
abbrev beating : List Event
beating = sends heartbeat_text ∷ sink_sends ∷ []

beating_is : ((after beating).is_open ≡ true) × ((after beating).world.1.compress_tx ≡ true)
unfolding take_steps take_step open_step client_step sink_step send_next settle start_forwarding
    handle_message handle_payload handle_op from_json find_opcode find_sequence find_event_type
    find_integer from_str find get_from get_to get_range starts_with byte_len is_whitespace as_bytes
    utf8
beating_is = (refl, refl)

resume-Unknown :
    Unknown Clients.env
      ((arrival resume_text).others (after beating).world.0)
      (text_message resume_text)
      resume
unfolding take_steps take_step open_step client_step sink_step send_next settle start_forwarding
    handle_message handle_payload handle_op from_json find_opcode find_sequence find_event_type
    find_integer from_str find get_from get_to get_range starts_with byte_len is_whitespace as_bytes
    utf8 text_eq refuses last_word get_session get
resume-Unknown = record {
  payload = resume_text;
  event = Clients.short_event 6;
  readable = refl;
  is_text = refl;
  parsed = refl;
  is_resume = refl;
  admitted = record { parsed = refl; allowed = refl };
  unknown = refl;
}

take_steps-Unknown_example :
    let x = after beating in
    let y = after (beating ++ (sends resume_text ∷ sink_sends ∷ sink_sends ∷ [])) in
    (y.queue ≡ x.queue ++ (invalid_session ∷ [])) × (y.taken ≡ 0) × (y.is_open ≡ true)
take_steps-Unknown_example =
    take_steps-Unknown Clients.env Forwarding.env env 2 state beating (sink_sends ∷ sink_sends ∷ [])
      (arrival resume_text) true [] (text_message resume_text) resume beating_is.0 beating_is.1 refl
      resume-Unknown (tt, (tt, tt))
