-- ===== src/Bridge.antt =====
-- src/sensorium/runtime/bridge_protocol.py: the shared-memory bridge to the kernel module. A file that
-- can be opened, a region that can be mapped and descriptors for the notifications are the operating
-- system's; the region is `mm`, and the outcome of an ioctl is an argument.
pub mod Shared
pub mod Protocol
pub mod Layout
pub mod Reserve
pub mod Submit
pub mod Drain
mod Tests
use Prim.Native.Nat.{◌*◌}
use sensorium.Base.{
  ℕ, zero, suc, ◌+◌, ◌-◌, ◌%◌, ◌^◌, Bool, true, false, not, ◌&&◌, ◌||◌, List, [], ◌∷◌, ◌++◌, Option,
  none, some, if◌then◌else◌, ltb, leb, ◌==◌, Bytes, length, le, to_le, drop, u16_at, u32_at, ℤ,
  int_sub,
}
use sensorium.Base.Result.{
  Result, ok, raise, runtime_error, blocking_io_error, struct_error, ◌>>=◌, ◌>>◌,
}
unfoldable pub use Layout.*
use Shared.{Memory, peek, poke, word, set_word}
use Protocol.{
  abi_version, cmd_hello, cmd_hello_ack, cmd_reply, queue_class_control, queue_class_reply,
  desc_size, validate_command_payload,
}

-- a request from the kernel: opcode, request id, generation and payload
pub record Frame : Type 0 where
  pub opcode : ℕ
  pub request_id : ℕ
  pub generation : ℕ
  pub payload : Bytes

-- one direction of the bridge: where its ring and payload zone lie, and which words count them
pub record Ring : Type 0 where
  pub entries : ℕ
  pub ring_offset : ℕ
  pub payload_base : ℕ
  pub payload_size : ℕ
  pub head : ℕ
  pub tail : ℕ
  pub payload_head : ℕ
  pub payload_tail : ℕ
  pub queue_class : ℕ

-- the attributes of `KernelBridge` after `negotiate`
pub record Bridge : Type 0 where
  pub mm : Memory
  pub pending_transport : List Frame
  pub session_id : ℕ
  pub generation : ℕ
  pub features : ℕ
  pub region_size : ℕ
  pub control_ring_entries : ℕ
  pub transport_ring_entries : ℕ
  pub reply_ring_entries : ℕ
  pub control_ring_offset : ℕ
  pub transport_ring_offset : ℕ
  pub reply_ring_offset : ℕ
  pub control_payload_offset : ℕ
  pub control_payload_size : ℕ
  pub transport_payload_offset : ℕ
  pub transport_payload_size : ℕ
  pub reply_payload_offset : ℕ
  pub reply_payload_size : ℕ

-- what the kernel writes back to the SETUP ioctl
pub record Setup : Type 0 where
  pub abi_version : ℕ
  pub control_entries : ℕ
  pub transport_entries : ℕ
  pub reply_entries : ℕ
  pub region_size : ℕ
  pub session_id : ℕ
  pub generation : ℕ
  pub features : ℕ
  pub control_ring_offset : ℕ
  pub transport_ring_offset : ℕ
  pub reply_ring_offset : ℕ
  pub control_payload_offset : ℕ
  pub control_payload_size : ℕ
  pub transport_payload_offset : ℕ
  pub transport_payload_size : ℕ
  pub reply_payload_offset : ℕ
  pub reply_payload_size : ℕ

-- `negotiate`, given the kernel's answer and the region that it maps. REQUIRED_FEATURES are the bits 0x7.
pub negotiate : Setup → Memory → Result Bridge
negotiate s mm =
    if not (s.abi_version == abi_version)
    then raise runtime_error
    else if not (s.features % 8 == 7)
    then raise runtime_error
    else ok (record {
      mm = mm;
      pending_transport = [];
      session_id = s.session_id;
      generation = s.generation;
      features = s.features;
      region_size = s.region_size;
      control_ring_entries = s.control_entries;
      transport_ring_entries = s.transport_entries;
      reply_ring_entries = s.reply_entries;
      control_ring_offset = s.control_ring_offset;
      transport_ring_offset = s.transport_ring_offset;
      reply_ring_offset = s.reply_ring_offset;
      control_payload_offset = s.control_payload_offset;
      control_payload_size = s.control_payload_size;
      transport_payload_offset = s.transport_payload_offset;
      transport_payload_size = s.transport_payload_size;
      reply_payload_offset = s.reply_payload_offset;
      reply_payload_size = s.reply_payload_size;
    })

-- the two rings that the broker fills: the branches on `ring_kind`
pub data Kind : Type 0 where
  control reply : Kind

abbrev pub ring_of : Bridge → Kind → Ring
ring_of b control = record {
  entries = b.control_ring_entries;
  ring_offset = b.control_ring_offset;
  payload_base = b.control_payload_offset;
  payload_size = b.control_payload_size;
  head = control_ring_head_word;
  tail = control_ring_tail_word;
  payload_head = control_payload_head_word;
  payload_tail = control_payload_tail_word;
  queue_class = queue_class_control;
}
ring_of b reply = record {
  entries = b.reply_ring_entries;
  ring_offset = b.reply_ring_offset;
  payload_base = b.reply_payload_offset;
  payload_size = b.reply_payload_size;
  head = reply_ring_head_word;
  tail = reply_ring_tail_word;
  payload_head = reply_payload_head_word;
  payload_tail = reply_payload_tail_word;
  queue_class = queue_class_reply;
}

-- `ring_offset + (counter % entries) * V5_DESC_STRUCT.size`
abbrev pub slot_offset : ℕ → ℕ → ℕ → ℕ
slot_offset ring_offset entries counter = ring_offset + counter % entries * desc_size

-- Python's integers do not wrap: `start + payload_len - head > zone_size` is written with the
-- subtraction on the other side.
pub reserve_payload : ℕ → ℕ → ℕ → ℕ → Result ℕ
reserve_payload head tail zone_size payload_len =
    let place = tail % zone_size in
    let start = if ltb zone_size (place + payload_len) then tail + (zone_size - place) else tail in
    if payload_len == 0
    then ok tail
    else if ltb (head + zone_size) (start + payload_len)
    then raise blocking_io_error
    else ok start

-- what the broker submits
pub record Entry : Type 0 where
  pub msg_type : ℕ
  pub message_id : ℕ
  pub generation : ℕ
  pub payload : Bytes

abbrev pub desc_of : ℕ → Ring → Entry → ℕ → Desc
desc_of session r e payload_offset = record {
  session_id = session;
  generation = e.generation;
  request_id = e.message_id;
  queue_class = r.queue_class;
  opcode = e.msg_type;
  device_handle = 0;
  payload_offset = payload_offset;
  payload_len = length e.payload;
  status = 0;
  reserved = 0;
}

-- The writes of `_submit_ring_entry`, once the payload's place is known: payload, descriptor, the two
-- tails. A number that does not fit the descriptor raises before anything is published; what `pack_into`
-- may have written of the slot by then is left out.
pub publish : ℕ → Ring → Entry → Memory → ℕ → Result (Unit {0}) × Memory
publish session r e mm payload_offset =
    let d = desc_of session r e payload_offset in
    let tail = word mm r.tail in
    let with_payload = poke mm (r.payload_base + payload_offset % r.payload_size) e.payload in
    let with_desc = poke with_payload (slot_offset r.ring_offset r.entries tail) (pack_desc d) in
    let with_payload_tail = set_word with_desc r.payload_tail (payload_offset + length e.payload) in
    if desc_fits d
    then (ok tt, set_word with_payload_tail r.tail (tail + 1))
    else (raise struct_error, with_payload)

pub publish_reserved : ℕ → Ring → Entry → Memory → Result ℕ → Result (Unit {0}) × Memory
publish_reserved session r e mm (raise error) = (raise error, mm)
publish_reserved session r e mm (ok payload_offset) = publish session r e mm payload_offset

-- The part of `_submit_ring_entry` under the lock. Again `tail - head >= ring_entries` is read over
-- integers that do not wrap.
pub submit_entry : ℕ → Ring → Entry → Memory → Result (Unit {0}) × Memory
submit_entry session r e mm =
    let reserved =
      reserve_payload (word mm r.payload_head) (word mm r.payload_tail) r.payload_size
        (length e.payload) in
    if leb (word mm r.head + r.entries) (word mm r.tail)
    then (raise blocking_io_error, mm)
    else publish_reserved session r e mm reserved

-- `fcntl.ioctl` behind a submission; its outcome is the kernel's.
abbrev notify : Result (Unit {0}) × Memory → Result (Unit {0}) → Result (Unit {0})
notify (ok _, mm) outcome = outcome
notify (raise e, mm) outcome = raise e

pub submit_ring_entry : Kind → Entry → Result (Unit {0}) → Bridge → Result (Unit {0}) × Bridge
submit_ring_entry kind e outcome b =
    let submitted = submit_entry b.session_id (ring_of b kind) e b.mm in
    let checked = validate_command_payload e.msg_type e.payload in
    elim checked [
      | raise error ↦ (raise error, b)
      | ok _ ↦ (notify submitted outcome, record b { mm = submitted.1 })
    ]

pub write_frame : Entry → Result (Unit {0}) → Bridge → Result (Unit {0}) × Bridge
write_frame e outcome b =
    if e.msg_type == cmd_hello || e.msg_type == cmd_hello_ack
    then (raise runtime_error, b)
    else submit_ring_entry (if e.msg_type == cmd_reply then reply else control) e outcome b

-- a round of `_drain_transport_ring`: the frame at the head, and the head moved behind it
pub drain_one : Bridge → Result Frame × Bridge
drain_one b =
    let head = word b.mm transport_ring_head_word in
    let d =
      unpack_desc
        (peek b.mm (slot_offset b.transport_ring_offset b.transport_ring_entries head) desc_size) in
    let payload =
      peek b.mm (b.transport_payload_offset + d.payload_offset % b.transport_payload_size)
        d.payload_len in
    let frame : Frame = record {
      opcode = d.opcode;
      request_id = d.request_id;
      generation = d.generation;
      payload = payload;
    } in
    let mm = set_word b.mm transport_ring_head_word (head + 1) in
    let mm' = set_word mm transport_payload_head_word (d.payload_offset + d.payload_len) in
    if d.session_id == b.session_id
    then (ok frame, record b { mm = mm'; pending_transport = b.pending_transport ++ frame ∷ [] })
    else (raise runtime_error, b)

-- `_drain_transport_ring`, with the tail as it stands: at most `fuel` rounds
pub drain_transport_ring : ℕ → Bridge → Result (Unit {0}) × Bridge
drain_transport_ring zero b = (ok tt, b)
drain_transport_ring (suc fuel) b =
    let (out, b') = drain_one b in
    elim (word b.mm transport_ring_head_word == word b.mm transport_ring_tail_word) [
      | true ↦ (ok tt, b)
      | false ↦ elim out [
        | ok frame ↦ drain_transport_ring fuel b'
        | raise error ↦ (raise error, b')
      ]
    ]

-- the queue depths of `metrics`; a negative one is `negsuc`
pub queue_depth : Memory → ℕ → ℕ → ℤ
queue_depth mm head_index tail_index = int_sub (word mm tail_index) (word mm head_index)

pub record Metrics : Type 0 where
  pub session_id : ℕ
  pub generation : ℕ
  pub inflight_requests : ℕ
  pub inflight_credit_limit : ℕ
  pub control_depth : ℤ
  pub transport_depth : ℤ
  pub reply_depth : ℤ
  pub ebusy_generation : ℕ
  pub ebusy_total : ℕ
  pub request_timeout_generation : ℕ
  pub request_timeout_total : ℕ
  pub request_completed_total : ℕ
  pub desynced : Bool

-- `metrics` of a mapped bridge
pub metrics : Memory → Metrics
unfolding queue_depth
metrics mm = record {
  session_id = word mm session_id_word;
  generation = word mm generation_word;
  inflight_requests = word mm inflight_in_use_word;
  inflight_credit_limit = word mm inflight_credit_limit_word;
  control_depth = queue_depth mm control_ring_head_word control_ring_tail_word;
  transport_depth = queue_depth mm transport_ring_head_word transport_ring_tail_word;
  reply_depth = queue_depth mm reply_ring_head_word reply_ring_tail_word;
  ebusy_generation = word mm ebusy_generation_word;
  ebusy_total = word mm ebusy_total_word;
  request_timeout_generation = word mm request_timeout_generation_word;
  request_timeout_total = word mm request_timeout_total_word;
  request_completed_total = word mm request_completed_total_word;
  desynced = not (word mm desynced_word == 0);
}
