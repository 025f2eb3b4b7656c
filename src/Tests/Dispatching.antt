-- ===== src/Tests/Dispatching.antt =====
-- src/dispatch.rs: runs of the task on concrete messages.
use gateway_proxy.Prelude.{
  ℕ, All, Occurs, inl, inr, subst, arith, ◌↔◌, ◌⊎◌, List, ◌+◌, ◌≡◌, refl, true, false, Bool, some,
  none, [], ◌∷◌, if◌then◌else◌,
}
use gateway_proxy.Text.{
  Text, codes, find, get_from, get_to, get_range, starts_with, byte_len, is_whitespace, as_bytes,
  utf8,
}
use gateway_proxy.Text.Number.{from_str}
use gateway_proxy.Text.Words.{text_eq}
use gateway_proxy.Model.{array, number, values, JsonObject, get, insert}
use gateway_proxy.Deserializer.{
  GatewayEvent, from_json, find_opcode, find_sequence, find_event_type, find_integer,
}
use gateway_proxy.State.Readiness.{new, set_ready, set_not_ready}
use gateway_proxy.Dispatch.{
  Incoming, text, close, error, closed, dispatch, invalidate_session, Env, Task, return, panic,
  guilds_key, clear_array, clear_guilds, blank_ready, store_ready, relay, started, react, broadcast,
  finish, handle_text, round, events,
}
use gateway_proxy.Dispatch.Rounds.{Holds}
use gateway_proxy.Dispatch.Session.{Stored, events-Stored}
use gateway_proxy.Dispatch.Live as Live
use gateway_proxy.Dispatch.Texts.{texts}
use gateway_proxy.Dispatch.Live.{starts, relayed, invalidates, broadcasts, events-broadcasts}
use gateway_proxy.Dispatch.Started.{Valid, Started, events-is_ready_iff}
use gateway_proxy.Dispatch.Caching.{updated, updated_all, events-guilds}
use gateway_proxy.Dispatch.Ending.{HasEnd, events-return_iff}
use gateway_proxy.Dispatch.Panics.{Unreadable, events-eq-panic_iff}

abbrev pub ready_text : Text
ready_text = codes "{\"t\":\"READY\",\"s\":1,\"op\":0,\"d\":{}}"

abbrev pub message_text : Text
message_text = codes "{\"t\":\"X\",\"s\":7,\"op\":0,\"d\":{}}"

abbrev invalid_text : Text
invalid_text = codes "{\"t\":null,\"s\":null,\"op\":9,\"d\":false}"

abbrev pub ready_data : JsonObject
ready_data =
    (guilds_key, array (values (number (codes "1") ∷ []))) ∷ (codes "v", number (codes "10")) ∷ []

abbrev pub url : Text
url = codes "ws://proxy"

-- The cache counts the updates.
abbrev pub env : Env ℕ (Unit {0})
env = record {
  externally_accessible_url = url;
  ready_from_str =
      λ payload. if text_eq payload ready_text then some (record { d = ready_data }) else none;
  parse = λ payload.
      if text_eq payload invalid_text
      then some (invalidate_session false)
      else if text_eq payload message_text
      then some (dispatch tt)
      else none;
  update = λ cache event. cache + 1;
}

abbrev pub start : Task ℕ
start = started (record { id = 0; sender = []; events = []; ready = new; guilds = 0 })

-- A task that has seen the READY.
abbrev live : Task ℕ
live = record start {
  is_ready = true;
  shard = record (start.shard) { ready = set_ready new (blank_ready url ready_data) };
}

abbrev message_event : GatewayEvent
message_event = record {
  event_type = some (record { name = codes "X"; range = record { start = 6; end = 7 } });
  op = record { op = 0; range = record { start = 20; end = 21 } };
  sequence = some (record { seq = 7; range = record { start = 13; end = 14 } });
}

message_parsed : from_json message_text ≡ some message_event
unfolding from_json find_opcode find_sequence find_event_type find_integer from_str find get_from
    get_to get_range starts_with byte_len text_eq is_whitespace as_bytes utf8
message_parsed = refl

abbrev invalid_event : GatewayEvent
invalid_event = record {
  event_type = none;
  op = record { op = 9; range = record { start = 24; end = 25 } };
  sequence = none;
}

invalid_parsed : from_json invalid_text ≡ some invalid_event
unfolding from_json find_opcode find_sequence find_event_type find_integer from_str find get_from
    get_to get_range starts_with byte_len text_eq is_whitespace as_bytes utf8
invalid_parsed = refl

-- A READY, a message, an invalidation of the session and another message.
events-session :
    events env start
      (text ready_text ∷ text message_text ∷ text invalid_text ∷ text message_text ∷ closed ∷ [])
    ≡ return (record live {
      is_ready = false;
      shard = record (live.shard) {
        ready = record { inner = none; changed = 2 };
        events = (message_text, message_event.sequence) ∷ [];
        guilds = 2;
      };
      counted = codes "READY" ∷ codes "X" ∷ codes "X" ∷ [];
    })
unfolding events round handle_text finish relay react store_ready blank_ready clear_guilds
    clear_array get insert broadcast set_ready set_not_ready from_json find_opcode find_sequence
    find_event_type find_integer from_str find get_from get_to get_range starts_with byte_len
    text_eq is_whitespace as_bytes utf8 new
events-session = refl

events-Stored_example :
    Holds
      (Stored env)
      (events env start (text ready_text ∷ text invalid_text ∷ text ready_text ∷ []))
unfolding new
events-Stored_example =
    events-Stored env start (text ready_text ∷ text invalid_text ∷ text ready_text ∷ [])
      (λ d e. absurd cc)

abbrev session : List Incoming
session =
    text ready_text
    ∷ text message_text
    ∷ text invalid_text
    ∷ text message_text
    ∷ closed
    ∷ text message_text
    ∷ []

events-broadcasts_example :
    Holds
      (λ t'.
        (t'.is_ready ≡ Live.live env false (texts session))
        × (t'.shard.events ≡ broadcasts env false (texts session)))
      (events env start session)
events-broadcasts_example = events-broadcasts env start session

-- Only the first of the messages is relayed.
broadcasts-session :
    broadcasts env false (texts session) ≡ (message_text, message_event.sequence) ∷ []
unfolding starts relayed invalidates from_json find_opcode find_sequence find_event_type
    find_integer from_str find get_from get_to get_range starts_with byte_len text_eq is_whitespace
    as_bytes utf8
broadcasts-session = refl

events-is_ready_iff_example :
    Holds
      (λ t'. (t'.is_ready ≡ true) ↔ (
        ((◌≡◌ {A = Bool} false true) × All (Valid env) (texts session))
        ⊎ Started env (texts session)))
      (events env start session)
events-is_ready_iff_example = events-is_ready_iff env start session

events-eq-panic_iff_example :
    (events env start session ≡ panic) ↔ ((p : Text) × Occurs p (texts session) × Unreadable env p)
events-eq-panic_iff_example = events-eq-panic_iff env start session

message-Readable : Unreadable env message_text → ⊥
unfolding text_eq
message-Readable (event, info, parsed, named, ready, failed) =
    let is_x : info.name ≡ codes "X" = ground (arith, message_parsed) in absurd cc

abbrev shutting_down : List Incoming
shutting_down = text message_text ∷ close false ∷ error ∷ close true ∷ []

only_message : (p : Text) → Occurs p (texts shutting_down) → Unreadable env p → ⊥
only_message p (inl e) u = message-Readable (subst (Unreadable env) e u)
only_message p (inr o) u = absurd o

events-return_iff_example :
    ((t' : Task ℕ) × (events env start shutting_down ≡ return t')) ↔ HasEnd shutting_down
events-return_iff_example = events-return_iff env start shutting_down only_message

events-guilds_example :
    Holds (λ t'. t'.shard.guilds ≡ updated_all env 0 (texts session)) (events env start session)
events-guilds_example = events-guilds env start session

-- Both messages reach the cache, though one is not relayed.
updated_all-session : updated_all env 0 (texts session) ≡ 2
unfolding updated from_json find_opcode find_sequence find_event_type find_integer from_str find
    get_from get_to get_range starts_with byte_len text_eq is_whitespace as_bytes utf8
updated_all-session = refl
