-- ===== src/Tests/Delivering.antt =====
-- A connection: a client that identifies, or resumes, and gets one message.
use gateway_proxy.Prelude.{
  ℕ, ◌+◌, ◌<◌, ◌^◌, ◌≡◌, refl, false, some, none, List, [], ◌∷◌, ◌++◌, map, All, length, arith,
}
use gateway_proxy.Text.{
  Text, codes, find, get_from, get_to, get_range, starts_with, byte_len, is_whitespace, as_bytes,
  utf8, replace_range, len_utf8,
}
use gateway_proxy.Text.Number.{from_str, format}
use gateway_proxy.Text.Words.{text_eq, last_word}
use gateway_proxy.Deserializer.{
  from_json, find_opcode, find_sequence, find_event_type, find_integer,
}
use gateway_proxy.Model.{string, get, insert}
use gateway_proxy.Cache.{next_sequence, guild_payload, get_ready_payload}
use gateway_proxy.Cache.Payloads.{numbered}
use gateway_proxy.Cache.Records.{InMemoryCache}
use gateway_proxy.State.{Inner, create_session, get_session, take_samples}
use gateway_proxy.State.Readiness.{new, set_ready, is_ready}
use gateway_proxy.State.Waiting.{advance_at}
use gateway_proxy.Dispatch.{
  text, resume_url_key, relay, react, broadcast, finish, handle_text, round,
}
use gateway_proxy.Server.Client.{
  ForwardTask, refuses, attach, handle_identify, handle_resume, handle_op, handle_payload,
  handle_message, spawn_forward, resume_session,
}
use gateway_proxy.Server.Forward.{resumed, session_id_key, new_ready, renumber}
use gateway_proxy.Server.Forward.Numbering.{Sends, numbers, consecutive}
use gateway_proxy.System.{
  receiving, System, spawned, wait, send_ready, send_guilds, send_resumed, subscribe, deliver,
  receive, forward_at, forward_step,
}
use gateway_proxy.Connection.{
  Event, discord_sends, shard_forwards, added, start_forwarding, settle, dispatched, forwarded,
  sink_step, send_next, client_step, shard_step, discord_step, open_step, take_step, take_steps,
}
use gateway_proxy.Connection.Logs.{Interleaves}
use gateway_proxy.Connection.Steps.{Admits}
use gateway_proxy.Connection.Queue.{connect}
use gateway_proxy.Connection.Feeding.{IsFed, Feeds}
use gateway_proxy.Connection.Delivery.{take_steps-identified, take_steps-resumed}
use gateway_proxy.Tests.Clients as Clients
use gateway_proxy.Tests.Clients.{samples, resume_text}
use gateway_proxy.Tests.Dispatching.{message_text, url}
use gateway_proxy.Tests.Forwarding as Forwarding
use gateway_proxy.Tests.Interleaving.{env, live, relayed, live-Stored}
use gateway_proxy.Tests.Connecting.{state, sends, session, task, receives}

-- One message of Discord, and the step that hands it on.
abbrev message : List Event
message = discord_sends (text message_text) ∷ shard_forwards ∷ []

abbrev identified : List Event
identified = session ++ message

abbrev identified_system : System
identified_system = forward_step task 2 (record receives { task = relayed })

identified_is :
    ((connect Clients.env Forwarding.env env 2 state identified).forwarding
      ≡ some (task, identified_system))
    × (identified_system.place ≡ receiving 1)
    × (identified_system.env.ready_to_string
          (new_ready identified_system.env task.session_id task.seq).0
        ≡ some (codes "READY"))
unfolding take_steps take_step open_step client_step shard_step discord_step dispatched sink_step
    send_next settle forwarded start_forwarding added handle_message handle_payload handle_op
    handle_identify attach refuses last_word text_eq create_session spawn_forward insert from_json
    find_opcode find_sequence find_event_type find_integer from_str find get_from get_to get_range
    starts_with byte_len is_whitespace as_bytes utf8 forward_at advance_at is_ready wait send_ready
    send_guilds subscribe set_ready new round handle_text finish relay react broadcast receive
    deliver renumber replace_range format len_utf8 next_sequence new_ready get_ready_payload
identified_is = (refl, refl, refl)

live-IsFed : IsFed Clients.env Forwarding.env env 2 live.shard
live-IsFed = record { relayable = tt; stored = live-Stored }

-- The other tasks of the proxy change nothing here.
identified-Feeds : All (Admits (Feeds Clients.env Forwarding.env env 2)) identified
identified-Feeds =
    (λ s h. h, (tt, (λ s h. h, (tt, (tt, (tt, (λ s h. h, (tt, (tt, (tt, (tt, (tt, tt))))))))))))

few :
    task.seq
      + 1
      + length identified_system.env.guild_cache.guilds
      + length identified_system.received
    < 2 ^ 64
unfolding forward_at advance_at is_ready wait send_ready send_guilds subscribe set_ready new receive
    deliver renumber find_sequence find_integer from_str find get_from get_to get_range starts_with
    byte_len is_whitespace as_bytes utf8 replace_range format len_utf8 next_sequence
few = omega arith

take_steps-identified_example :
    let x = connect Clients.env Forwarding.env env 2 state identified in
    let s = identified_system in
    let ready = (new_ready s.env task.session_id task.seq).0 in
    (x.world.1.shard_forward_task ≡ some task)
    × (ready.s ≡ task.seq + 1)
    × (get ready.d session_id_key ≡ some (string task.session_id))
    × (get ready.d resume_url_key ≡ some (string url))
    × (sent : List Text) × (n : ℕ) × Interleaves x.world.1.outbox
        (codes "READY"
            ∷ map
                (λ g. s.env.guild_to_string (guild_payload s.env.guild_cache g.0 g.1))
                (numbered s.env.guild_cache.guilds (task.seq + 1 + 1))
          ++ sent)
        x.queue
    × Sends s.received (task.seq + 1 + length s.env.guild_cache.guilds) sent
    × (numbers sent ≡ consecutive (task.seq + 1 + length s.env.guild_cache.guilds + 1) n)
take_steps-identified_example =
    take_steps-identified Clients.env Forwarding.env env 2 state identified
      (live-IsFed, (live-IsFed, tt)) identified-Feeds task identified_system 1 identified_is.0
      identified_is.1 (codes "READY") refl identified_is.2 few

-- The client comes back with its session.
abbrev known : Inner InMemoryCache
known = record state {
  sessions = (take_samples samples 32, record { shard_id = 1; compress = none }) ∷ [];
}

abbrev came_back : List Event
came_back =
    sends resume_text ∷ shard_forwards ∷ shard_forwards ∷ shard_forwards ∷ shard_forwards ∷ message

abbrev resumed_task : ForwardTask
resumed_task = record {
  session_id = take_samples samples 32;
  shard = 1;
  send_guilds = false;
  seq = 9;
}

abbrev twice : System → System
twice s = forward_step resumed_task 2 (forward_step resumed_task 2 s)

abbrev resumed_system : System
resumed_system =
    forward_step resumed_task 2
      (record (twice (twice (spawned live Forwarding.env resumed_task))) { task = relayed })

resumed_is :
    ((connect Clients.env Forwarding.env env 2 known came_back).forwarding
      ≡ some (resumed_task, resumed_system))
    × (resumed_system.place ≡ receiving 1)
unfolding take_steps take_step open_step client_step shard_step discord_step dispatched settle
    forwarded start_forwarding added handle_message handle_payload handle_op handle_resume
    resume_session get_session get refuses last_word text_eq spawn_forward from_json find_opcode
    find_sequence find_event_type find_integer from_str find get_from get_to get_range starts_with
    byte_len is_whitespace as_bytes utf8 forward_at advance_at is_ready wait send_resumed subscribe
    set_ready new round handle_text finish relay react broadcast receive deliver renumber
    replace_range format len_utf8 next_sequence
resumed_is = (refl, refl)

few_resumed : resumed_task.seq + length resumed_system.received < 2 ^ 64
unfolding forward_at advance_at is_ready wait send_resumed subscribe set_ready new receive deliver
    renumber find_sequence find_integer from_str find get_from get_to get_range starts_with byte_len
    is_whitespace as_bytes utf8 replace_range format len_utf8 next_sequence
few_resumed = omega arith

take_steps-resumed_example :
    let x = connect Clients.env Forwarding.env env 2 known came_back in
    (x.world.1.shard_forward_task ≡ some resumed_task)
    × (sent : List Text) × (n : ℕ) × Interleaves x.world.1.outbox (resumed ∷ sent) x.queue
    × Sends resumed_system.received resumed_task.seq sent
    × (numbers sent ≡ consecutive (resumed_task.seq + 1) n)
take_steps-resumed_example =
    take_steps-resumed Clients.env Forwarding.env env 2 known came_back
      (live-IsFed, (live-IsFed, tt)) (λ s h. h, (tt, (tt, (tt, (tt, (tt, (tt, tt))))))) resumed_task
      resumed_system 1 resumed_is.0 resumed_is.1 refl few_resumed
