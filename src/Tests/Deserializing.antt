-- ===== src/Tests/Deserializing.antt =====
-- src/deserializer.rs on payloads.
use gateway_proxy.Prelude.{◌+◌, ◌≡◌, refl, some, none, ◌++◌, arith}
use gateway_proxy.Text.{
  Text, codes, len_utf8, utf8, byte_len, as_bytes, is_whitespace, starts_with, find, get_from,
  get_to, get_range, replace_range,
}
use gateway_proxy.Text.Number.{from_str, format}
use gateway_proxy.Deserializer.{
  SequenceInfo, EventTypeInfo, find_integer, find_opcode, find_sequence, find_event_type, from_json,
  op_key, sequence_key,
}
use gateway_proxy.Deserializer.Integer.{IntegerAt, find_integer_iff}
use gateway_proxy.Deserializer.EventType.{EventTypeAt, find_event_type_iff}
use gateway_proxy.Deserializer.Rewrite.{rewrite_sequence}
use gateway_proxy.Deserializer.Blanks.{find_integer-blank}

abbrev dispatch : Text
dispatch = codes "{\"t\":\"GUILD_CREATE\",\"s\":41,\"op\":0,\"d\":{\"name\":\"é\"}}"

abbrev dispatch_sequence : SequenceInfo
dispatch_sequence = record { seq = 41; range = record { start = 24; end = 26 } }

abbrev dispatch_type : EventTypeInfo
dispatch_type = record { name = codes "GUILD_CREATE"; range = record { start = 6; end = 18 } }

from_json-dispatch :
    from_json dispatch
    ≡ some (record {
      event_type = some dispatch_type;
      op = record { op = 0; range = record { start = 32; end = 33 } };
      sequence = some dispatch_sequence;
    })
unfolding from_json find_opcode find_sequence find_event_type find_integer from_str find get_from
    get_to get_range starts_with byte_len as_bytes utf8 is_whitespace
from_json-dispatch = refl

-- An overflow of `u8` is no opcode.
find_opcode-overflow : find_opcode (codes "{\"op\":256}") ≡ none
unfolding find_opcode find_integer from_str find get_from get_to get_range starts_with byte_len
find_opcode-overflow = refl

find_sequence-dispatch : find_sequence dispatch ≡ some dispatch_sequence
unfolding find_sequence find_integer from_str find get_from get_to get_range starts_with byte_len
find_sequence-dispatch = refl

find_integer_iff_example : IntegerAt 64 dispatch sequence_key 41 dispatch_sequence.range
unfolding find_integer from_str find get_from get_to get_range starts_with byte_len
find_integer_iff_example =
    (find_integer_iff 64 dispatch sequence_key 41 dispatch_sequence.range).0 refl

find_event_type-dispatch : find_event_type dispatch ≡ some dispatch_type
unfolding find_event_type find get_from get_to get_range starts_with as_bytes utf8 is_whitespace
find_event_type-dispatch = refl

find_event_type_iff_example : EventTypeAt dispatch dispatch_type
find_event_type_iff_example =
    (find_event_type_iff dispatch dispatch_type).0 find_event_type-dispatch

rewrite_sequence_example :
    (before old rest : Text) × (dispatch ≡ before ++ (old ++ rest))
    × (byte_len before ≡ 24)
    × (byte_len old + 24 ≡ 26)
    × (replace_range dispatch 24 26 (format 7) ≡ some (before ++ (format 7 ++ rest)))
    × (find_sequence (before ++ (format 7 ++ rest))
        ≡ some (record { seq = 7; range = record { start = 24; end = 24 + byte_len (format 7) } }))
rewrite_sequence_example =
    rewrite_sequence dispatch dispatch_sequence 7 find_sequence-dispatch (omega arith)

replace_range-dispatch :
    replace_range dispatch 24 26 (format 1001)
    ≡ some (codes "{\"t\":\"GUILD_CREATE\",\"s\":1001,\"op\":0,\"d\":{\"name\":\"é\"}}")
unfolding replace_range get_to get_from len_utf8 format
replace_range-dispatch = refl

find_integer-blank_example : find_integer 8 (codes "{\"op\": 1}") op_key ≡ none
unfolding starts_with is_whitespace
find_integer-blank_example =
    find_integer-blank 8 (codes "{") op_key b' ' (codes "1}") (refl, tt) refl
