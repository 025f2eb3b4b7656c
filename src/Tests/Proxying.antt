-- ===== src/Tests/Proxying.antt =====
-- The running proxy: a client that identifies.
use gateway_proxy.Prelude.{
  ℕ, zero, suc, refl, true, false, some, none, List, [], ◌∷◌, if◌then◌else◌,
}
use gateway_proxy.Text.{
  codes, find, get_from, get_to, get_range, starts_with, byte_len, is_whitespace, as_bytes, utf8,
}
use gateway_proxy.Text.Number.{from_str}
use gateway_proxy.Text.Words.{text_eq, last_word}
use gateway_proxy.Deserializer.{
  from_json, find_opcode, find_sequence, find_event_type, find_integer,
}
use gateway_proxy.Model.{insert}
use gateway_proxy.Cache.Records.{InMemoryCache}
use gateway_proxy.State.{Inner, create_session, take_samples}
use gateway_proxy.State.Readiness.{new, set_ready, is_ready}
use gateway_proxy.State.Waiting.{advance_at}
use gateway_proxy.Dispatch as Dispatch
use gateway_proxy.Dispatch.{
  Task, text, blank_ready, store_ready, resume_url_key, relay, react, broadcast, finish,
  handle_text, round,
}
use gateway_proxy.Launch.{
  Config, create_state, create_shards, create_shard, activity_name, count_from,
}
use gateway_proxy.Server.Client.{
  ForwardTask, World, connected, refuses, attach, handle_identify, handle_op, handle_payload,
  handle_message, spawn_forward,
}
use gateway_proxy.System.{
  System, wait, send_ready, send_guilds, subscribe, forward_at, forward_step,
}
use gateway_proxy.Connection.{added}
use gateway_proxy.Proxy.{
  Local, Forwarder, Seat, Proxy, seated, set, system_of, forwarder_of, begin_forwarder,
  start_forwarder, told_seat, stepped_seat, ran, Reaches, starts, accepts, tells, rounds, forwards,
}
use gateway_proxy.Tests.Caching.{cache}
use gateway_proxy.Tests.Clients as Clients
use gateway_proxy.Tests.Clients.{samples, text_message, identify_text, resume_text}
use gateway_proxy.Tests.Dispatching.{ready_text, ready_data, url}
use gateway_proxy.Tests.Forwarding as Forwarding

abbrev pub config : Config
config = record { shards = some 2; shard_start = none; shard_end = none; activity = none }

abbrev pub env : Dispatch.Env InMemoryCache (Unit {0})
env = record {
  externally_accessible_url = url;
  ready_from_str =
      λ payload. if text_eq payload ready_text then some (record { d = ready_data }) else none;
  parse = λ payload. none;
  update = λ c event. c;
}

abbrev pub begin : Inner InMemoryCache
begin = create_state cache config 9

abbrev pub locals : ℕ → Local
locals i = record { is_ready = false; counted = []; running = true }

abbrev pub IsReached : Proxy → Type 0
IsReached = Reaches Clients.env Forwarding.env env 2 begin locals

abbrev pub accepted : Proxy
accepted = record { state = begin; locals = locals; seats = seated ∷ [] }

abbrev pub task : ForwardTask
task = record { session_id = take_samples samples 32; shard = 1; send_guilds = true; seq = 0 }

abbrev pub world : World InMemoryCache
world = (
  record begin {
    sessions = (take_samples samples 32, record { shard_id = 1; compress = some true }) ∷ [];
  },
  record connected {
    compress_tx = false;
    compress_rx = some (some true);
    shard_sender = some 1;
    shard_forward_task = some task;
  },
)

abbrev pub told : Proxy
told = record accepted { state = world.0; seats = told_seat Forwarding.env seated world ∷ [] }

-- The task of the shard after the READY.
abbrev pub ready : Task InMemoryCache
ready = record {
  is_ready = true;
  shard = record {
    id = 1;
    sender = [];
    events = [];
    ready = set_ready new (blank_ready url ready_data);
    guilds = cache;
  };
  counted = codes "READY" ∷ [];
}

told-IsReached : IsReached told
unfolding handle_message handle_payload handle_op handle_identify attach refuses last_word text_eq
    create_session spawn_forward insert from_json find_opcode find_sequence find_event_type
    find_integer from_str find get_from get_to get_range starts_with byte_len is_whitespace as_bytes
    utf8 set create_state create_shards count_from
told-IsReached =
    tells accepted 0 seated samples (text_message identify_text) world refl refl refl
      (accepts _ starts)

ready-IsReached : IsReached (ran told 1 ready true)
unfolding create_state create_shards create_shard activity_name count_from round handle_text finish
    relay react store_ready broadcast from_json find_opcode find_sequence find_event_type
    find_integer from_str find get_from get_to get_range starts_with byte_len text_eq is_whitespace
    as_bytes utf8 set_ready new
ready-IsReached = rounds told 1 _ (text ready_text) ready refl refl refl told-IsReached

-- A step of a `forward_shard` with these arguments beside that task.
abbrev pub step : ForwardTask → Task InMemoryCache → Forwarder → System
step client t f =
    forward_step client 2
      (system_of (record { is_ready = t.is_ready; counted = t.counted; running = true }) t.shard f)

abbrev pub moved : ForwardTask → Forwarder → Forwarder
moved client f = forwarder_of (step client ready f)

abbrev pub seat_after : ForwardTask → Seat → Forwarder → Seat
seat_after client seat f = stepped_seat seat client f (step client ready f)

-- The client and its `forward_shard` after so many steps.
abbrev pub forwarder_at : ForwardTask → ℕ → Forwarder
forwarder_at client zero = begin_forwarder Forwarding.env client
forwarder_at client (suc n) = moved client (forwarder_at client n)

abbrev pub seat_at : ForwardTask → World InMemoryCache → ℕ → Seat
seat_at client w zero = told_seat Forwarding.env seated w
seat_at client w (suc n) = seat_after client (seat_at client w n) (forwarder_at client n)

abbrev pub with_seats : Proxy → List Seat → Proxy
with_seats p seats = record p { seats = seats }

abbrev pub receives : Proxy
receives = with_seats (ran told 1 ready true) (seat_at task world 5 ∷ [])

pub receives-IsReached : IsReached receives
unfolding set start_forwarder create_state create_shards create_shard activity_name count_from
    forward_at advance_at is_ready wait send_ready send_guilds subscribe set_ready new added
receives-IsReached =
    forwards _ 0 (seat_at task world 4) task (forwarder_at task 4) ready.shard refl refl refl refl
      tt
      (forwards _ 0 (seat_at task world 3) task (forwarder_at task 3) ready.shard refl refl refl
        refl tt
        (forwards _ 0 (seat_at task world 2) task (forwarder_at task 2) ready.shard refl refl refl
          refl tt
          (forwards _ 0 (seat_at task world 1) task (forwarder_at task 1) ready.shard refl refl refl
            refl tt
            (forwards _ 0 (seat_at task world 0) task (forwarder_at task 0) ready.shard refl refl
              refl refl tt ready-IsReached))))
