-- ===== src/Runtime/I2cRequest.antt =====
-- src/sensorium/runtime/i2c.py: `_handle_i2c_request`.
use sensorium.Base.{
  ℕ, zero, suc, ◌+◌, ◌*◌, Bool, true, false, not, ◌||◌, List, [], ◌∷◌, Option, none, some,
  if◌then◌else◌, ltb, Bytes, length, take, drop, u16_at, u32_at, ◌==◌, ℤ, pos, neg,
}
use sensorium.Base.Result.{ok, raise, attribute_error}
use sensorium.Template.I2c.{Message, is_read, handle_i2c}
use sensorium.Device.{
  Device, template_backend, controller_backend, bank, spi_state, uart_state, i2c, eproto,
  eopnotsupp, enoent,
}
use sensorium.Runtime.{i2c_xfer, Action}
use sensorium.Runtime.Requests.{device_by_handle, reject_request}
use sensorium.Runtime.Dispatch.{Meanwhile}
use sensorium.Runtime.Serve.{
  Decoded, refused, decoded, unless_fault, serve_template, serve_controller, event_of,
}

-- `num_msgs` times I2C_REQ_MSG_STRUCT: address, flags and length
unfoldable pub read_descs : ℕ → Bytes → List (ℕ × ℕ × ℕ)
read_descs zero bs = []
read_descs (suc n) bs = (u16_at 0 bs, u16_at 2 bs, u16_at 4 bs) ∷ read_descs n (drop 8 bs)

-- the loop with `cursor`: the write messages take their bytes from what is left of `tx_data`
unfoldable pub read_messages : List (ℕ × ℕ × ℕ) → Bytes → List Message
read_messages [] tx = []
read_messages ((addr, flags, len) ∷ descs) tx =
    if is_read flags
    then record { addr = addr; flags = flags; len = len; payload = [] } ∷ read_messages descs tx
    else record { addr = addr; flags = flags; len = len; payload = take len tx }
      ∷ read_messages descs (drop len tx)

-- the checks before the device is looked up: the handle and the messages
unfoldable pub decode_i2c : Bytes → Decoded (ℕ × List Message)
unfolding read_descs read_messages
decode_i2c payload =
    let num_msgs = u32_at 8 payload in
    let data_len = u32_at 12 payload in
    let tx = drop (16 + 8 * num_msgs) payload in
    if ltb (length payload) 16
    then refused (neg eproto)
    else if num_msgs == 0 || ltb 256 num_msgs
    then refused (neg eopnotsupp)
    else if ltb (length payload) (16 + 8 * num_msgs)
    then refused (neg eproto)
    else if not (length tx == data_len)
    then refused (neg eproto)
    else decoded (u32_at 0 payload, read_messages (read_descs num_msgs (drop 16 payload)) tx)

-- `message["addr"] != expected_addr`
abbrev other_address : Option ℕ → ℕ → Bool
other_address none addr = true
other_address (some expected) addr = not (addr == expected)

unfoldable pub mixed_addresses : Option ℕ → List Message → Bool
mixed_addresses expected [] = false
mixed_addresses expected (m ∷ ms) = other_address expected m.addr || mixed_addresses expected ms

-- a template of another transport has no `handle_i2c`
unfoldable pub serve_bank : Device → ℕ → List Message → Action (ℤ × Bytes)
unfolding handle_i2c serve_template
serve_bank d bytes_in messages rt = elim d.state [
  | none ↦ (raise attribute_error, rt)
  | some t ↦ elim t [
    | bank b ↦
        let (b', reply) = handle_i2c b messages in
        serve_template i2c d bytes_in (bank b') (pos 0, reply) rt
    | spi_state s ↦ (raise attribute_error, rt)
    | uart_state s ↦ (raise attribute_error, rt)
  ]
]

-- the request behind `_apply_fault_pre`
unfoldable pub transfer_i2c : Meanwhile → Device → ℕ → ℕ → List Message → Action (ℤ × Bytes)
unfolding mixed_addresses reject_request serve_bank serve_controller
transfer_i2c m d message_id bytes_in messages rt =
    if mixed_addresses d.address messages
    then reject_request (some d) i2c bytes_in (neg eopnotsupp) rt
    else elim d.backend [
      | template_backend t ↦ serve_bank d bytes_in messages rt
      | controller_backend w ↦
          serve_controller i2c m d bytes_in (event_of d message_id (i2c_xfer messages)) rt
    ]

unfoldable pub handle_i2c_request : Meanwhile → ℕ → Bytes → Action (ℤ × Bytes)
unfolding decode_i2c unless_fault transfer_i2c
handle_i2c_request m message_id payload rt = elim (decode_i2c payload) [
  | refused status ↦ (ok (status, []), rt)
  | decoded (handle, messages) ↦ elim (device_by_handle handle rt) [
    | none ↦ (ok (neg enoent, []), rt)
    | some d ↦
        unless_fault i2c d (length payload) (transfer_i2c m d message_id (length payload) messages)
          rt
  ]
]
