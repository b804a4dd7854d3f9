-- ===== src/Bridge/Tests.antt =====
-- The bridge at concrete inputs: a ring of four slots behind the control page, and a payload zone of
-- sixteen bytes.
use sensorium.Base.{Bytes, to_le, lookup, ◌<◌, ◌≤◌, ◌⊎◌}
use sensorium.Base.{
  ℕ, ◌+◌, ◌^◌, ◌≤◌, ◌<◌, ◌≡◌, ◌≢◌, refl, [], ◌∷◌, ◌++◌, arith, length, le, ◌-◌, codes, replicate,
}
use sensorium.Base.Result.{
  Result, ok, raise, value_error, struct_error, blocking_io_error, runtime_error,
}
use sensorium.Bridge.Shared.{Memory, peek, poke, word, set_word}
use sensorium.Bridge.Protocol.{
  encode_c_string, decode_c_string, parse_tty_name, validate_command_payload,
}
use sensorium.Bridge.Protocol.Names.{IsTtyName, parse_tty_name_lem, decode-encode_c_string}
use sensorium.Bridge.{
  Setup, negotiate, Bridge, control, ring_of, submit_ring_entry, Ring, Entry, reserve_payload,
  submit_entry, publish, publish_reserved, unpack_desc, drain_transport_ring, write_frame,
}
use sensorium.Bridge.Reserve.{reserve_payload_lem}
use sensorium.Bridge.Submit.{
  IsLaidOut, Published, submit_publishes, submit_ring_entry_raised, submit_stuck_at_u32,
}
use sensorium.Bridge.Drain
use sensorium.Bridge.Drain.{OfSession, frames, drain_lem}

abbrev blank : Memory
blank _ = 0

abbrev ring : Ring
ring = record {
  entries = 4;
  ring_offset = 156;
  payload_base = 300;
  payload_size = 16;
  head = 9;
  tail = 10;
  payload_head = 18;
  payload_tail = 19;
  queue_class = 1;
}

ring-IsLaidOut : IsLaidOut ring
ring-IsLaidOut = record {
  some_entries = omega arith;
  some_payload = omega arith;
  words = omega arith;
  head_ne_tail = omega arith;
  head_ne_payload_tail = omega arith;
  tail_ne_payload_tail = omega arith;
  slots_behind_words = omega arith;
  zone_behind_slots = omega arith;
}

abbrev entry : Entry
entry = record { msg_type = 3; message_id = 0; generation = 0; payload = 1 ∷ 2 ∷ 3 ∷ 4 ∷ [] }

-- places go round the end of the zone as a whole
reserve_runs : reserve_payload 12 14 16 4 ≡ ok 16
unfolding reserve_payload
reserve_runs = refl

reserve_full : reserve_payload 0 14 16 4 ≡ raise blocking_io_error
unfolding reserve_payload
reserve_full = refl

reserve_payload_lem_example : (14 ≤ 16) × (0 + 4 ≤ 16) × (16 + 4 ≤ 12 + 16)
reserve_payload_lem_example =
    reserve_payload_lem 12 14 16 4 16 (omega arith) (omega arith) (omega arith) reserve_runs

submit_runs : (submit_entry 7 ring entry blank).0 ≡ ok tt
unfolding submit_entry reserve_payload publish_reserved publish peek le
submit_runs = refl

submit_publishes_example :
    (word blank ring.tail < word blank ring.head + 4)
    × ((offset : ℕ) × Published 7 ring entry blank offset (submit_entry 7 ring entry blank).1)
submit_publishes_example =
    submit_publishes 7 ring entry blank ring-IsLaidOut (omega arith) submit_runs

-- a bridge whose control ring has four slots, and an entry that no descriptor holds
abbrev small : Bridge
small = record {
  mm = blank;
  pending_transport = [];
  session_id = 7;
  generation = 0;
  features = 7;
  region_size = 1000;
  control_ring_entries = 4;
  transport_ring_entries = 4;
  reply_ring_entries = 4;
  control_ring_offset = 256;
  transport_ring_offset = 256;
  reply_ring_offset = 256;
  control_payload_offset = 512;
  control_payload_size = 64;
  transport_payload_offset = 512;
  transport_payload_size = 64;
  reply_payload_offset = 512;
  reply_payload_size = 64;
}

abbrev oversized : Entry
oversized = record { msg_type = 99; message_id = 2 ^ 32; generation = 0; payload = 1 ∷ [] }

oversized_raises : (submit_ring_entry control oversized (ok tt) small).0 ≡ raise struct_error
unfolding submit_ring_entry validate_command_payload submit_entry reserve_payload publish_reserved
    publish peek le lookup
oversized_raises = refl

small-IsLaidOut : IsLaidOut (ring_of small control)
small-IsLaidOut = record {
  some_entries = omega arith;
  some_payload = omega arith;
  words = omega arith;
  head_ne_tail = omega arith;
  head_ne_payload_tail = omega arith;
  tail_ne_payload_tail = omega arith;
  slots_behind_words = omega arith;
  zone_behind_slots = omega arith;
}

-- the outcome of the ioctl
abbrev notified : Result (Unit {0})
notified = ok tt

abbrev small_after : Memory
small_after = (submit_ring_entry control oversized (ok tt) small).1.mm

submit_ring_entry_raised_example :
    ((i : ℕ) → i < 39 → word small_after i ≡ word blank i)
    ⊎ ((notified ≡ raise struct_error)
        × ((submit_entry 7 (ring_of small control) oversized blank).0 ≡ ok tt)
        × (small_after ≡ (submit_entry 7 (ring_of small control) oversized blank).1))
submit_ring_entry_raised_example =
    submit_ring_entry_raised control oversized notified small struct_error small-IsLaidOut
      oversized_raises

-- two bytes before 2 ^ 32, everything read
abbrev late : Memory
late = set_word (set_word blank 18 (2 ^ 32 - 2)) 19 (2 ^ 32 - 2)

submit_stuck_at_u32_example : (submit_entry 7 ring entry late).0 ≢ ok tt
unfolding peek le poke to_le
submit_stuck_at_u32_example =
    submit_stuck_at_u32 7 ring entry late (2 ^ 28 - 1) 14 refl refl (omega arith) (omega arith)
      (omega arith) (omega arith)

abbrev setup : Setup
setup = record {
  abi_version = 5;
  control_entries = 4;
  transport_entries = 4;
  reply_entries = 4;
  region_size = 4096;
  session_id = 7;
  generation = 0;
  features = 15;
  control_ring_offset = 156;
  transport_ring_offset = 300;
  reply_ring_offset = 444;
  control_payload_offset = 588;
  control_payload_size = 16;
  transport_payload_offset = 604;
  transport_payload_size = 16;
  reply_payload_offset = 620;
  reply_payload_size = 16;
}

-- one request of two bytes
abbrev published : Memory
published =
    set_word
      (poke (poke blank 604 (5 ∷ 6 ∷ [])) 300
        (7 ∷ replicate 11 0 ++ 2 ∷ 0 ∷ 20 ∷ replicate 9 0 ++ 2 ∷ replicate 11 0))
      12 1

abbrev bridge : Bridge
bridge = record {
  mm = published;
  pending_transport = [];
  session_id = 7;
  generation = 0;
  features = 15;
  region_size = 4096;
  control_ring_entries = 4;
  transport_ring_entries = 4;
  reply_ring_entries = 4;
  control_ring_offset = 156;
  transport_ring_offset = 300;
  reply_ring_offset = 444;
  control_payload_offset = 588;
  control_payload_size = 16;
  transport_payload_offset = 604;
  transport_payload_size = 16;
  reply_payload_offset = 620;
  reply_payload_size = 16;
}

negotiate_runs : negotiate setup published ≡ ok bridge
unfolding negotiate
negotiate_runs = refl

negotiate_features : negotiate (record setup { features = 3 }) published ≡ raise runtime_error
unfolding negotiate
negotiate_features = refl

bridge-IsLaidOut : Drain.IsLaidOut bridge
bridge-IsLaidOut = record { slots_behind_words = omega arith; zone_behind_words = omega arith }

drain_runs :
    frames bridge 0 1
    ≡ record { opcode = 20; request_id = 0; generation = 0; payload = 5 ∷ 6 ∷ [] } ∷ []
unfolding unpack_desc peek le poke to_le
drain_runs = refl

drain_lem_example :
    let (out, b') = drain_transport_ring 4 bridge in
    (out ≡ ok tt)
    × (b'.pending_transport ≡ [] ++ frames bridge (word published 11) 1)
    × (word b'.mm 11 ≡ word published 12)
unfolding peek le unpack_desc poke to_le
drain_lem_example =
    drain_lem 1 4 bridge bridge-IsLaidOut refl (omega arith) (refl, tt) (omega arith)

hello_refused :
    (write_frame
      (record { msg_type = 9; message_id = 0; generation = 0; payload = [] })
      (ok tt)
      bridge).0
    ≡ raise runtime_error
unfolding write_frame
hello_refused = refl

encode_runs : encode_c_string (codes "i2c0") 8 ≡ ok (codes "i2c0" ++ replicate 4 0)
unfolding encode_c_string
encode_runs = refl

encode_long : encode_c_string (codes "i2c0") 4 ≡ raise value_error
unfolding encode_c_string
encode_long = refl

decode-encode_c_string_example :
    ((4 < 5)
      × ((out : Bytes) × (encode_c_string (codes "i2c0") 5 ≡ ok out)
          × (decode_c_string out ≡ codes "i2c0")
          × (length out ≡ 5)))
    ⊎ ((5 ≤ 4) × (encode_c_string (codes "i2c0") 5 ≡ raise value_error))
decode-encode_c_string_example = decode-encode_c_string (codes "i2c0") 5 refl

tty_runs : parse_tty_name (codes "ttyS12") ≡ ok (codes "ttyS", 12)
unfolding parse_tty_name
tty_runs = refl

tty_refused : parse_tty_name (codes "tty-1") ≡ raise value_error
unfolding parse_tty_name
tty_refused = refl

parse_tty_name_lem_example : IsTtyName (codes "ttyS12") (codes "ttyS") 12
parse_tty_name_lem_example = parse_tty_name_lem (codes "ttyS12") (codes "ttyS") 12 tty_runs
