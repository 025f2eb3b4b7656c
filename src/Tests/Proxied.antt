-- ===== src/Tests/Proxied.antt =====
-- The running proxy: another client resumes the session of the first, and both get one message.
use gateway_proxy.Prelude.{
  ℕ, ◌+◌, ◌<◌, ◌≤◌, ◌^◌, ◌≡◌, ◌≢◌, refl, true, false, some, List, [], ◌∷◌, ◌++◌, map, length,
  get_elem?, arith,
}
use gateway_proxy.Text.{
  Text, codes, find, get_from, get_to, get_range, starts_with, byte_len, is_whitespace, as_bytes,
  utf8, replace_range, len_utf8,
}
use gateway_proxy.Text.Number.{from_str, format}
use gateway_proxy.Text.Words.{text_eq, last_word}
use gateway_proxy.Deserializer.{
  from_json, find_opcode, find_sequence, find_event_type, find_integer,
}
use gateway_proxy.Model.{string, get}
use gateway_proxy.Cache.{next_sequence, guild_payload, get_ready_payload}
use gateway_proxy.Cache.Payloads.{numbered}
use gateway_proxy.Cache.Records.{InMemoryCache}
use gateway_proxy.State.{Shard, get_session, take_samples}
use gateway_proxy.State.Readiness.{new, set_ready, is_ready}
use gateway_proxy.State.Waiting.{advance_at}
use gateway_proxy.Dispatch.{
  Task, text, resume_url_key, relay, react, broadcast, finish, handle_text, round,
}
use gateway_proxy.Launch.{create_state, create_shards, create_shard, activity_name, count_from}
use gateway_proxy.Server.Client.{
  Client, Message, panic, ForwardTask, World, connected, refuses, handle_resume, handle_op,
  handle_payload, handle_message, spawn_forward, resume_session,
}
use gateway_proxy.Server.Forward.{forward_shard, resumed, session_id_key, new_ready, renumber}
use gateway_proxy.Server.Forward.Numbering.{Sends, numbers, consecutive}
use gateway_proxy.System.{
  receiving, crashed, wait, send_ready, send_guilds, send_resumed, subscribe, deliver, receive,
  forward_at,
}
use gateway_proxy.System.Replays.{Replays, position_after}
use gateway_proxy.Connection.{added}
use gateway_proxy.Connection.Logs.{Interleaves}
use gateway_proxy.Proxy.{
  Forwarder, Seat, Proxy, seated, set, forwarder_of, start_forwarder, stepped_seat, ran, accepts,
  tells, rounds, forwards,
}
use gateway_proxy.Proxy.Clients.{Reaches-forward_shard, Reaches-identified, Reaches-resumed}
use gateway_proxy.Proxy.Messages.{Reaches-handle_message}
use gateway_proxy.Proxy.Crashes.{Reaches-not_crashed}
use gateway_proxy.Tests.Caching.{cache}
use gateway_proxy.Tests.Clients as Clients
use gateway_proxy.Tests.Clients.{samples, text_message, identify_text, resume_text}
use gateway_proxy.Tests.Dispatching.{message_text, url}
use gateway_proxy.Tests.Forwarding as Forwarding
use gateway_proxy.Tests.Proxying.{
  config, env, locals, IsReached, task, world, ready, step, forwarder_at, seat_at, with_seats,
  receives, receives-IsReached,
}

-- Another client resumes the session.
abbrev resumed_task : ForwardTask
resumed_task = record {
  session_id = take_samples samples 32;
  shard = 1;
  send_guilds = false;
  seq = 9;
}

abbrev resumed_world : World InMemoryCache
resumed_world = (
  receives.state,
  record connected {
    compress_tx = false;
    compress_rx = some (some true);
    shard_forward_task = some resumed_task;
  },
)

abbrev beside : Seat → Proxy
beside seat = with_seats receives (seat_at task world 5 ∷ seat ∷ [])

told_resume-IsReached : IsReached (beside (seat_at resumed_task resumed_world 0))
unfolding handle_message handle_payload handle_op handle_resume resume_session get_session get
    refuses last_word text_eq spawn_forward from_json find_opcode find_sequence find_event_type
    find_integer from_str find get_from get_to get_range starts_with byte_len is_whitespace as_bytes
    utf8 set create_state create_shards count_from
told_resume-IsReached =
    tells (beside seated) 1 seated samples (text_message resume_text) resumed_world refl refl refl
      (accepts _ receives-IsReached)

abbrev both : Proxy
both = beside (seat_at resumed_task resumed_world 4)

both-IsReached : IsReached both
unfolding set start_forwarder create_state create_shards create_shard activity_name count_from
    forward_at advance_at is_ready wait send_resumed subscribe set_ready new added
both-IsReached =
    forwards _ 1 (seat_at resumed_task resumed_world 3) resumed_task (forwarder_at resumed_task 3)
      ready.shard refl refl refl refl tt
      (forwards _ 1 (seat_at resumed_task resumed_world 2) resumed_task
        (forwarder_at resumed_task 2) ready.shard refl refl refl refl tt
        (forwards _ 1 (seat_at resumed_task resumed_world 1) resumed_task
          (forwarder_at resumed_task 1) ready.shard refl refl refl refl tt
          (forwards _ 1 (seat_at resumed_task resumed_world 0) resumed_task
            (forwarder_at resumed_task 0) ready.shard refl refl refl refl tt
            told_resume-IsReached)))

-- Discord sends a message, and both clients get it.
abbrev relayed : Task InMemoryCache
relayed = record {
  is_ready = true;
  shard = record (ready.shard) { events = (message_text, find_sequence message_text) ∷ [] };
  counted = codes "READY" ∷ codes "X" ∷ [];
}

relayed-IsReached : IsReached (ran both 1 relayed true)
unfolding set create_state create_shards create_shard activity_name count_from round handle_text
    finish relay react broadcast from_json find_opcode find_sequence find_event_type find_integer
    from_str find get_from get_to get_range starts_with byte_len text_eq is_whitespace as_bytes utf8
relayed-IsReached =
    rounds both 1 ready.shard (text message_text) relayed refl refl refl both-IsReached

abbrev received : Forwarder
received = forwarder_of (step task relayed (forwarder_at task 5))

abbrev resumed_received : Forwarder
resumed_received = forwarder_of (step resumed_task relayed (forwarder_at resumed_task 4))

abbrev served : Seat
served =
    stepped_seat (seat_at task world 5) task (forwarder_at task 5)
      (step task relayed (forwarder_at task 5))

abbrev resumed_served : Seat
resumed_served =
    stepped_seat (seat_at resumed_task resumed_world 4) resumed_task (forwarder_at resumed_task 4)
      (step resumed_task relayed (forwarder_at resumed_task 4))

abbrev final : Proxy
final = with_seats (ran both 1 relayed true) (served ∷ resumed_served ∷ [])

final-IsReached : IsReached final
unfolding set start_forwarder create_state create_shards create_shard activity_name count_from
    forward_at advance_at is_ready wait send_ready send_guilds send_resumed subscribe set_ready new
    added receive deliver renumber find_sequence find_integer from_str find get_from get_to
    get_range starts_with byte_len is_whitespace as_bytes utf8 replace_range format len_utf8
final-IsReached =
    forwards _ 1 (seat_at resumed_task resumed_world 4) resumed_task (forwarder_at resumed_task 4)
      relayed.shard refl refl refl refl tt
      (forwards _ 0 (seat_at task world 5) task (forwarder_at task 5) relayed.shard refl refl refl
        refl tt relayed-IsReached)

final_is :
    (received.place ≡ receiving 1)
    × (received.env.ready_to_string (new_ready received.env task.session_id task.seq).0
        ≡ some (codes "READY"))
    × (resumed_received.place ≡ receiving 1)
unfolding forward_at advance_at is_ready wait send_ready send_guilds send_resumed subscribe
    set_ready new receive deliver renumber find_sequence find_integer from_str find get_from get_to
    get_range starts_with byte_len is_whitespace as_bytes utf8 replace_range format len_utf8
    next_sequence new_ready get_ready_payload
final_is = (refl, refl, refl)

few :
    (task.seq + 1 + length received.env.guild_cache.guilds + length received.received < 2 ^ 64)
    × (resumed_task.seq + length resumed_received.received < 2 ^ 64)
unfolding forward_at advance_at is_ready wait send_ready send_guilds send_resumed subscribe
    set_ready new receive deliver renumber find_sequence find_integer from_str find get_from get_to
    get_range starts_with byte_len is_whitespace as_bytes utf8 replace_range format len_utf8
    next_sequence
few = (omega arith, omega arith)

Reaches-forward_shard_example :
    (served.client.shard_forward_task ≡ some task)
    × ((sent : List Text) × Interleaves served.client.outbox sent served.queue
        × (forward_shard received.env task received.received ≡ some (sent, received.seq)))
    × (shard : Shard InMemoryCache) × (get_elem? final.state.shards 1 ≡ some shard)
    × Replays shard.events received.subscribed received.received
    × (position_after received.subscribed received.received ≡ 1)
    × (1 ≤ length shard.events)
Reaches-forward_shard_example =
    Reaches-forward_shard Clients.env Forwarding.env env 2 cache config 9 locals final 0 served task
      received 1 final-IsReached refl refl refl final_is.0

Reaches-identified_example :
    let ready = (new_ready received.env task.session_id task.seq).0 in
    (served.client.shard_forward_task ≡ some task)
    × (ready.s ≡ task.seq + 1)
    × (get ready.d session_id_key ≡ some (string task.session_id))
    × (get ready.d resume_url_key ≡ some (string url))
    × (sent : List Text) × (n : ℕ) × Interleaves served.client.outbox
        (codes "READY"
            ∷ map
                (λ g. received.env.guild_to_string (guild_payload received.env.guild_cache g.0 g.1))
                (numbered received.env.guild_cache.guilds (task.seq + 1 + 1))
          ++ sent)
        served.queue
    × Sends received.received (task.seq + 1 + length received.env.guild_cache.guilds) sent
    × (numbers sent ≡ consecutive (task.seq + 1 + length received.env.guild_cache.guilds + 1) n)
Reaches-identified_example =
    Reaches-identified Clients.env Forwarding.env env 2 cache config 9 locals final 0 served task
      received 1 final-IsReached refl refl refl final_is.0 (codes "READY") refl final_is.1 few.0

Reaches-resumed_example :
    (resumed_served.client.shard_forward_task ≡ some resumed_task)
    × (sent : List Text) × (n : ℕ) × Interleaves resumed_served.client.outbox
        (resumed ∷ sent)
        resumed_served.queue
    × Sends resumed_received.received resumed_task.seq sent
    × (numbers sent ≡ consecutive (resumed_task.seq + 1) n)
Reaches-resumed_example =
    Reaches-resumed Clients.env Forwarding.env env 2 cache config 9 locals final 1 resumed_served
      resumed_task resumed_received 1 final-IsReached refl refl refl final_is.2 refl few.1

Reaches-handle_message_example :
    ((sample : ℕ → ℕ) (c : Client) (msg : Message)
      → handle_message Clients.env sample (final.state, c) msg ≢ panic)
    × ((i : ℕ)
        → i < final.state.shard_count
        → (shard : Shard InMemoryCache) × (get_elem? final.state.shards i ≡ some shard)
          × (shard.id ≡ i))
Reaches-handle_message_example =
    Reaches-handle_message Clients.env Forwarding.env env 2 cache config 9 locals final refl
      (omega arith) final-IsReached

Reaches-not_crashed_example : (step resumed_task relayed resumed_received).place ≢ crashed
unfolding set create_state create_shards count_from
Reaches-not_crashed_example =
    Reaches-not_crashed Clients.env Forwarding.env env 2 cache config 9 locals final 1
      resumed_served resumed_task resumed_received relayed.shard final-IsReached refl refl refl refl
