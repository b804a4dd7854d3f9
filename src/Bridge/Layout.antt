-- ===== src/Bridge/Layout.antt =====
-- src/sensorium/runtime/bridge_protocol.py: the words of the control page, and the descriptors of the rings.
use sensorium.Base.{ℕ, ◌^◌, Bool, ◌&&◌, ◌++◌, ltb, Bytes, to_le, u16_at, u32_at}

-- V5_CONTROL_FIELDS, the fields that the broker reads or writes
abbrev pub session_id_word : ℕ
session_id_word = 2

abbrev pub generation_word : ℕ
generation_word = 3

abbrev pub control_ring_head_word : ℕ
control_ring_head_word = 9

abbrev pub control_ring_tail_word : ℕ
control_ring_tail_word = 10

abbrev pub transport_ring_head_word : ℕ
transport_ring_head_word = 11

abbrev pub transport_ring_tail_word : ℕ
transport_ring_tail_word = 12

abbrev pub reply_ring_head_word : ℕ
reply_ring_head_word = 13

abbrev pub reply_ring_tail_word : ℕ
reply_ring_tail_word = 14

abbrev pub control_payload_head_word : ℕ
control_payload_head_word = 18

abbrev pub control_payload_tail_word : ℕ
control_payload_tail_word = 19

abbrev pub transport_payload_head_word : ℕ
transport_payload_head_word = 20

abbrev pub transport_payload_tail_word : ℕ
transport_payload_tail_word = 21

abbrev pub reply_payload_head_word : ℕ
reply_payload_head_word = 22

abbrev pub reply_payload_tail_word : ℕ
reply_payload_tail_word = 23

abbrev pub inflight_credit_limit_word : ℕ
inflight_credit_limit_word = 24

abbrev pub inflight_in_use_word : ℕ
inflight_in_use_word = 25

abbrev pub ebusy_generation_word : ℕ
ebusy_generation_word = 26

abbrev pub ebusy_total_word : ℕ
ebusy_total_word = 27

abbrev pub request_completed_total_word : ℕ
request_completed_total_word = 28

abbrev pub request_timeout_generation_word : ℕ
request_timeout_generation_word = 29

abbrev pub request_timeout_total_word : ℕ
request_timeout_total_word = 30

abbrev pub desynced_word : ℕ
desynced_word = 33

-- the fields of `V5_DESC_STRUCT`
pub record Desc : Type 0 where
  pub session_id : ℕ
  pub generation : ℕ
  pub request_id : ℕ
  pub queue_class : ℕ
  pub opcode : ℕ
  pub device_handle : ℕ
  pub payload_offset : ℕ
  pub payload_len : ℕ
  pub status : ℕ
  pub reserved : ℕ

-- `struct` refuses a number that its field does not hold.
abbrev pub desc_fits : Desc → Bool
desc_fits d =
    ltb d.session_id (2 ^ 32)
    && ltb d.generation (2 ^ 32)
    && ltb d.request_id (2 ^ 32)
    && ltb d.queue_class (2 ^ 16)
    && ltb d.opcode (2 ^ 16)
    && ltb d.device_handle (2 ^ 32)
    && ltb d.payload_offset (2 ^ 32)
    && ltb d.payload_len (2 ^ 32)
    && ltb d.status (2 ^ 31)
    && ltb d.reserved (2 ^ 32)

-- `<IIIHHIIIiI`, for a status that is not negative
unfoldable pub pack_desc : Desc → Bytes
pack_desc d =
    to_le 4 d.session_id
    ++ (to_le 4 d.generation
        ++ (to_le 4 d.request_id
            ++ (to_le 2 d.queue_class
                ++ (to_le 2 d.opcode
                    ++ (to_le 4 d.device_handle
                        ++ (to_le 4 d.payload_offset
                            ++ (to_le 4 d.payload_len
                                ++ (to_le 4 d.status ++ to_le 4 d.reserved))))))))

unfoldable pub unpack_desc : Bytes → Desc
unpack_desc bs = record {
  session_id = u32_at 0 bs;
  generation = u32_at 4 bs;
  request_id = u32_at 8 bs;
  queue_class = u16_at 12 bs;
  opcode = u16_at 14 bs;
  device_handle = u32_at 16 bs;
  payload_offset = u32_at 20 bs;
  payload_len = u32_at 24 bs;
  status = u32_at 28 bs;
  reserved = u32_at 32 bs;
}
