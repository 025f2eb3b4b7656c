-- ===== src/Tests/Forwarding.antt =====
-- src/server.rs, `forward_shard`: runs on concrete events.
use gateway_proxy.Prelude.{ℕ, ◌+◌, ◌≡◌, refl, Bool, some, none, List, [], ◌∷◌, arith, All}
use gateway_proxy.Text.{
  Text, codes, find, get_from, get_to, get_range, starts_with, byte_len, is_whitespace, as_bytes,
  utf8, replace_range, len_utf8,
}
use gateway_proxy.Text.Number.{from_str, format}
use gateway_proxy.Model.{number, get}
use gateway_proxy.Deserializer.{SequenceInfo, find_sequence, find_integer}
use gateway_proxy.Cache.{next_sequence}
use gateway_proxy.Text.Words.{text_eq}
use gateway_proxy.Dispatch.{blank_ready}
use gateway_proxy.Server.Client.{ForwardTask}
use gateway_proxy.Server.Forward.{Received, ok, lagged, Env, new_ready, renumber, forward}
use gateway_proxy.Server.Forward.Numbering.{Found, Sends, numbers, consecutive, forward-Sends}
use gateway_proxy.Server.Forward.Ready.{new_ready-blank_ready}
use gateway_proxy.Tests.Caching.{cache, to_string}
use gateway_proxy.Tests.Dispatching as Dispatching

abbrev event : Text
event = codes "{\"t\":\"X\",\"s\":907,\"op\":0,\"d\":{}}"

abbrev info : SequenceInfo
info = record { seq = 907; range = record { start = 13; end = 16 } }

abbrev plain : Text
plain = codes "{\"op\":11}"

info_found : some info ≡ find_sequence event
unfolding find_sequence find_integer from_str find get_from get_to get_range starts_with byte_len
    is_whitespace as_bytes utf8
info_found = refl

plain_found : none ≡ find_sequence plain
unfolding find_sequence find_integer from_str find get_from get_to get_range starts_with byte_len
    is_whitespace as_bytes utf8
plain_found = refl

abbrev received : List Received
received = ok (event, some info) ∷ lagged 2 ∷ ok (plain, none) ∷ ok (event, some info) ∷ []

received-Found : All Found received
received-Found = (info_found, (tt, (plain_found, (info_found, tt))))

forward-run :
    forward received 9
    ≡ some (
      codes "{\"t\":\"X\",\"s\":10,\"op\":0,\"d\":{}}"
          ∷ plain
          ∷ codes "{\"t\":\"X\",\"s\":11,\"op\":0,\"d\":{}}"
          ∷ [],
      11,
    )
unfolding forward renumber next_sequence replace_range get_from get_to format byte_len len_utf8
forward-run = refl

forward-Sends_example :
    (sent : List Text) × (n : ℕ) × (forward received 9 ≡ some (sent, 9 + n))
    × Sends received 9 sent
    × (numbers sent ≡ consecutive 10 n)
forward-Sends_example = forward-Sends received 9 received-Found (omega arith)

abbrev pub env : Env
env = record {
  ready_to_string = λ payload. some (payload.t);
  guild_to_string = to_string;
  ready_payload = [];
  ready_cache = cache;
  guild_cache = cache;
}

abbrev pub task : Bool → ForwardTask
task send_guilds = record { session_id = codes "id"; shard = 0; send_guilds = send_guilds; seq = 0 }

new_ready-blank_ready_example :
    get
      (new_ready
        (record env { ready_payload = blank_ready Dispatching.url Dispatching.ready_data })
        (codes "id")
        0).0.d
      (codes "v")
    ≡ some (number (codes "10"))
unfolding text_eq get
new_ready-blank_ready_example =
    new_ready-blank_ready
      (record env { ready_payload = blank_ready Dispatching.url Dispatching.ready_data })
      Dispatching.url Dispatching.ready_data (codes "id") 0 (codes "v") refl
