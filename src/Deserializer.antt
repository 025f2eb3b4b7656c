-- ===== src/Deserializer.antt =====
-- src/deserializer.rs: the scan of a payload for its opcode, sequence number and event type.
pub mod Integer
pub mod Rewrite
pub mod Blanks
pub mod EventType
use gateway_proxy.Prelude.{
  ℕ, ◌+◌, ◌-◌, Bool, true, false, not, ◌||◌, Option, none, some, ◌==◌, if◌then◌else◌, get_elem?,
  ◌>>=◌,
}
use gateway_proxy.Text.{
  Text, codes, byte_len, as_bytes, is_whitespace, starts_with, at_char, find, get_from, get_range,
}
use gateway_proxy.Text.Number.{from_str}
use mathlib.Core.Option

-- A range of byte offsets.
pub record Range : Type 0 where
  pub start : ℕ
  pub end : ℕ

-- A number of `u8` and where it stands.
pub record OpInfo : Type 0 where
  pub op : ℕ
  pub range : Range

pub record EventTypeInfo : Type 0 where
  pub name : Text
  pub range : Range

-- A number of `u64` and where it stands.
pub record SequenceInfo : Type 0 where
  pub seq : ℕ
  pub range : Range

pub record GatewayEvent : Type 0 where
  pub event_type : Option EventTypeInfo
  pub op : OpInfo
  pub sequence : Option SequenceInfo

abbrev pub is_terminator : ℕ → Bool
is_terminator c = c == b',' || c == b'}'

abbrev pub op_key : Text
op_key = codes "\"op\":"

abbrev pub sequence_key : Text
sequence_key = codes "\"s\":"

abbrev pub event_type_key : Text
event_type_key = codes "\"t\":"

-- `T::from_str` for an unsigned `T` of `w` bits.
unfoldable pub find_integer : ℕ → Text → Text → Option (ℕ × Range)
find_integer w input key = do
  at_key ← find (starts_with key) input
  let start = at_key + byte_len key
  rest ← get_from input start
  to ← find (at_char is_terminator) rest
  clean ← get_range input start (start + to)
  int ← from_str w clean
  some (int, record { start = start; end = start + to })

unfoldable pub find_opcode : Text → Option OpInfo
find_opcode input =
    Option.map (λ (op, pos). record { op = op; range = pos }) (find_integer 8 input op_key)

unfoldable pub find_sequence : Text → Option SequenceInfo
find_sequence input =
    Option.map (λ (seq, pos). record { seq = seq; range = pos })
      (find_integer 64 input sequence_key)

unfoldable pub find_event_type : Text → Option EventTypeInfo
find_event_type input = do
  at_key ← find (starts_with event_type_key) input
  let start_of_value = at_key + 4
  rest ← get_from input start_of_value
  blanks ← find (at_char (λ c. not (is_whitespace c))) rest
  let start = blanks + start_of_value + 1
  before ← get_elem? (as_bytes input) (start - 1)
  value ← if before == b'"' then get_from input start else none
  to ← find (at_char (λ c. c == b'"')) value
  name ← get_range input start (start + to)
  some (record { name = name; range = record { start = start; end = start + to } })

unfoldable pub from_json : Text → Option GatewayEvent
from_json input = do
  op ← find_opcode input
  some (record { event_type = find_event_type input; op = op; sequence = find_sequence input })

-- `GatewayEvent::op`.
abbrev pub op_of : GatewayEvent → ℕ
op_of e = e.op.op

abbrev pub into_parts : GatewayEvent → OpInfo × Option SequenceInfo × Option EventTypeInfo
into_parts e = (e.op, e.sequence, e.event_type)
