-- ===== src/Tests/Interleaving.antt =====
-- src/dispatch.rs and src/server.rs together: a client that subscribes before one message and receives
-- it.
use gateway_proxy.Prelude.{
  ℕ, ◌+◌, ◌<◌, ◌^◌, ◌≡◌, ◌≢◌, refl, sym, subst, ◌≤◌, true, some, none, List, [], ◌∷◌, ◌++◌, map,
  length, arith, All,
}
use mathlib.Core.Option
use gateway_proxy.Text.{
  Text, codes, find, get_from, get_to, get_range, starts_with, byte_len, is_whitespace, as_bytes,
  utf8, replace_range, len_utf8,
}
use gateway_proxy.Text.Number.{from_str, format}
use gateway_proxy.Text.Words.{text_eq}
use gateway_proxy.Deserializer.{
  find_sequence, from_json, find_opcode, find_event_type, find_integer,
}
use gateway_proxy.Model.{string, get}
use gateway_proxy.State.Readiness.{new, set_ready, is_ready}
use gateway_proxy.State.Waiting.{advance_at}
use gateway_proxy.Cache.Records.{InMemoryCache}
use gateway_proxy.Cache.{next_sequence, guild_payload, get_ready_payload}
use gateway_proxy.Cache.Payloads.{numbered}
use gateway_proxy.Dispatch as Dispatch
use gateway_proxy.Dispatch.{
  resume_url_key, text, Task, next, started, blank_ready, relay, react, broadcast, finish,
  handle_text, round,
}
use gateway_proxy.Dispatch.Session.{IsBlank, Stored, blank_ready-IsBlank}
use gateway_proxy.Dispatch.Relay.{Relayable}
use gateway_proxy.Server.Client.{ForwardTask}
use gateway_proxy.Server.Forward.{session_id_key, forward_shard, new_ready, renumber}
use gateway_proxy.Server.Forward.Events.{received_after}
use gateway_proxy.Server.Forward.Numbering.{Sends, numbers, consecutive}
use gateway_proxy.System.{
  receiving, crashed, System, spawned, wait, send_ready, send_guilds, subscribe, deliver, receive,
  forward_at, forward_step, Reachable, begins, dispatches, forwards,
}
use gateway_proxy.System.Refinement.{Reachable-forward_shard}
use gateway_proxy.System.Replays.{Replays, position_after}
use gateway_proxy.System.Positions.{Reachable-Replays}
use gateway_proxy.System.Progress.{Prompt, forward_steps, Reachable-received_after}
use gateway_proxy.System.Service.{IsServed, Reachable-forward_steps}
use gateway_proxy.System.Safety.{Reachable-not_crashed}
use gateway_proxy.System.Delivery.{Reachable-identified}
use gateway_proxy.Tests.Caching.{cache}
use gateway_proxy.Tests.Dispatching.{message_text, ready_data, url}
use gateway_proxy.Tests.Forwarding as Forwarding

abbrev pub env : Dispatch.Env InMemoryCache (Unit {0})
env = record {
  externally_accessible_url = url;
  ready_from_str = λ payload. none;
  parse = λ payload. none;
  update = λ c event. c;
}

-- A task that has seen the READY.
abbrev pub live : Task InMemoryCache
live = record {
  is_ready = true;
  shard = record {
    id = 0;
    sender = [];
    events = [];
    ready = set_ready new (blank_ready url ready_data);
    guilds = cache;
  };
  counted = [];
}

abbrev client : ForwardTask
client = Forwarding.task true

abbrev forwarded : System → System
forwarded s = forward_step client 2 s

abbrev subscribed : System
subscribed =
    forwarded (forwarded (forwarded (forwarded (forwarded (spawned live Forwarding.env client)))))

abbrev pub relayed : Task InMemoryCache
relayed = record live {
  shard = record (live.shard) { events = (message_text, find_sequence message_text) ∷ [] };
  counted = codes "X" ∷ [];
}

abbrev grown : System
grown = record subscribed { task = relayed }

pub message_relayed : round env live (text message_text) ≡ next relayed
unfolding round handle_text finish relay react broadcast from_json find_opcode find_sequence
    find_event_type find_integer from_str find get_from get_to get_range starts_with byte_len
    text_eq is_whitespace as_bytes utf8
message_relayed = refl

subscribed_live : subscribed.task ≡ live
unfolding forward_at advance_at is_ready wait send_ready send_guilds subscribe set_ready new
subscribed_live = refl

subscribed_running : subscribed.running ≡ true
unfolding forward_at advance_at is_ready wait send_ready send_guilds subscribe set_ready new
subscribed_running = refl

subscribed_place : subscribed.place ≡ receiving 0
unfolding forward_at advance_at is_ready wait send_ready send_guilds subscribe set_ready new
subscribed_place = refl

pub begin_Relayable : All Relayable live.shard.events
begin_Relayable = tt

abbrev IsReachable : System → Type 0
IsReachable = Reachable client 2 env live Forwarding.env

subscribed-IsReachable : IsReachable subscribed
subscribed-IsReachable = forwards _ (forwards _ (forwards _ (forwards _ (forwards _ begins))))

grown-IsReachable : IsReachable grown
grown-IsReachable =
    dispatches subscribed (text message_text) relayed subscribed_running
      (subst (λ t. round env t (text message_text) ≡ next relayed) (sym subscribed_live)
        message_relayed)
      subscribed-IsReachable

abbrev received : System
received = forwarded grown

received-IsReachable : IsReachable received
received-IsReachable = forwards grown grown-IsReachable

received_place : received.place ≡ receiving 1
unfolding forward_at advance_at is_ready wait send_ready send_guilds subscribe set_ready new receive
    deliver renumber find_sequence find_integer from_str find get_from get_to get_range starts_with
    byte_len is_whitespace as_bytes utf8 replace_range format len_utf8 next_sequence
received_place = refl

Reachable-forward_shard_example :
    forward_shard received.env client received.received ≡ some (received.queue, received.seq)
Reachable-forward_shard_example =
    Reachable-forward_shard client 2 env live Forwarding.env received 1 received-IsReachable
      received_place

Reachable-Replays_example :
    Replays received.task.shard.events received.subscribed received.received
    × (position_after received.subscribed received.received ≡ 1)
    × (1 ≤ length received.task.shard.events)
Reachable-Replays_example =
    Reachable-Replays client 2 env live Forwarding.env received 1 received-IsReachable
      received_place

received-Prompt : All Prompt received.received
unfolding forward_at advance_at is_ready wait send_ready send_guilds subscribe set_ready new receive
    deliver renumber find_sequence find_integer from_str find get_from get_to get_range starts_with
    byte_len is_whitespace as_bytes utf8 replace_range format len_utf8 next_sequence
received-Prompt = (tt, tt)

Reachable-received_after_example :
    received_after received.subscribed received.task.shard.events
    ≡ received.received ++ received_after 1 received.task.shard.events
Reachable-received_after_example =
    Reachable-received_after client 2 env live Forwarding.env received 1 received-IsReachable
      received_place received-Prompt

abbrev began : System
began = spawned live Forwarding.env client

began-IsServed : IsServed 2 began began.place
unfolding is_ready set_ready new
began-IsServed = refl

Reachable-forward_steps_example :
    let s' = forward_steps client 2 5 began in
    (s'.place ≡ receiving 0)
    × (s'.received ≡ [])
    × (forward_shard s'.env client s'.received ≡ some (s'.queue, s'.seq))
    × (5 ≤ 6)
Reachable-forward_steps_example =
    Reachable-forward_steps client 2 env live Forwarding.env began begin_Relayable begins
      began-IsServed

Reachable-not_crashed_example : received.place ≢ crashed
Reachable-not_crashed_example =
    Reachable-not_crashed client 2 env live Forwarding.env received begin_Relayable
      received-IsReachable

serialized :
    received.env.ready_to_string (new_ready received.env client.session_id 0).0
    ≡ some (codes "READY")
unfolding forward_at advance_at is_ready wait send_ready send_guilds subscribe set_ready new receive
    deliver renumber find_sequence find_integer from_str find get_from get_to get_range starts_with
    byte_len is_whitespace as_bytes utf8 replace_range format len_utf8 next_sequence new_ready
    get_ready_payload
serialized = refl

few : 0 + 1 + length received.env.guild_cache.guilds + length received.received < 2 ^ 64
unfolding forward_at advance_at is_ready wait send_ready send_guilds subscribe set_ready new receive
    deliver renumber find_sequence find_integer from_str find get_from get_to get_range starts_with
    byte_len is_whitespace as_bytes utf8 replace_range format len_utf8 next_sequence
few = omega arith

pub live-Stored : Stored env live
unfolding set_ready new
live-Stored =
    λ d e. subst (IsBlank url) (Option.some_inj.0 e) (blank_ready-IsBlank url ready_data).0

Reachable-identified_example :
    ((new_ready received.env client.session_id 0).0.s ≡ 1)
    × (get (new_ready received.env client.session_id 0).0.d session_id_key
        ≡ some (string client.session_id))
    × (get (new_ready received.env client.session_id 0).0.d resume_url_key ≡ some (string url))
    × (sent : List Text) × (n : ℕ) × (received.queue
        ≡ codes "READY"
            ∷ map
                (λ g. received.env.guild_to_string (guild_payload received.env.guild_cache g.0 g.1))
                (numbered received.env.guild_cache.guilds 2)
          ++ sent)
    × Sends received.received (1 + length received.env.guild_cache.guilds) sent
    × (numbers sent ≡ consecutive (1 + length received.env.guild_cache.guilds + 1) n)
Reachable-identified_example =
    Reachable-identified client 2 env live Forwarding.env received 1 (codes "READY") begin_Relayable
      live-Stored received-IsReachable received_place refl serialized few
