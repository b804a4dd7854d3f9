-- ===== src/Runtime/UartRequest.antt =====
-- src/sensorium/runtime/uart.py: `_handle_uart_request` and `_handle_uart_config_request`. The termios bits are
-- those of Linux.
use Prim.Native.Nat.{bit_or}
use sensorium.Base.{
  ℕ, ◌+◌, ◌/◌, ◌%◌, ◌^◌, Bool, not, ◌||◌, List, [], none, some, if◌then◌else◌, ltb, Bytes, Text,
  length, drop, u32_at, ◌==◌, ℤ, pos, neg,
}
use sensorium.Base.Result.{Result, ok, raise, attribute_error}
use sensorium.Bridge.Protocol.{cmd_uart_set_modem}
use sensorium.Template.Uart.{collect_bits, handle_uart, handle_uart_control}
use sensorium.Device.{
  Device, template_backend, controller_backend, bank, spi_state, uart_state, uart, eproto,
  eopnotsupp, enoent, Settings, i2c_settings, spi_settings, uart_settings, UartSettings,
  parity_none, parity_odd, parity_even,
}
use sensorium.Runtime.{Runtime, Request, uart_tx, uart_control, uart_config, Action}
use sensorium.Runtime.Outside.{write_frame, persist_snapshot}
use sensorium.Runtime.Requests.{device_by_handle, modify_device, reject_request}
use sensorium.Runtime.Dispatch.{Meanwhile}
use sensorium.Runtime.Backends.{modem_payload}
use sensorium.Runtime.Serve.{
  Decoded, refused, decoded, current, unless_fault, finish, serve_template, serve_controller,
  event_of,
}

-- UART_REQ_PREFIX_STRUCT and the data behind it
pub record UartHeader : Type 0 where
  pub device_handle : ℕ
  pub flags : ℕ
  pub modem_mask : ℕ
  pub modem_values : ℕ
  pub input : Bytes

unfoldable pub decode_uart : Bytes → Decoded UartHeader
decode_uart payload =
    let input = drop 20 payload in
    if ltb (length payload) 20
    then refused (neg eproto)
    else if not (length input == u32_at 8 payload)
    then refused (neg eproto)
    else decoded (record {
      device_handle = u32_at 0 payload;
      flags = u32_at 4 payload;
      modem_mask = u32_at 12 payload;
      modem_values = u32_at 16 payload;
      input = input;
    })

-- UART_MODEM_MASK
abbrev pub uart_modem_mask : ℕ
uart_modem_mask = 0x1e6

-- `modem_mask & ~UART_MODEM_MASK` is zero
abbrev pub known_mask : ℕ → Bool
known_mask mask = bit_or mask uart_modem_mask == uart_modem_mask

-- the lines that the template moves, told to the kernel
unfoldable pub update_modem : Device → List (Text × Bool) → Action (Unit {0})
unfolding write_frame
update_modem d updates rt =
    let bits = collect_bits updates (0, 0) in
    if bits.0 == 0
    then (ok tt, rt)
    else write_frame cmd_uart_set_modem (modem_payload d.handle bits) rt

abbrev pub behind_update : Device → ℕ → Result (Unit {0}) × Runtime → Result (ℤ × Bytes) × Runtime
behind_update d bytes_in (raise e, rt) = (raise e, rt)
behind_update d bytes_in (ok _, rt) = finish uart d bytes_in (pos 0, []) rt

-- the template's answer to data, or to a change of the modem lines
unfoldable pub serve_line : Device → Bool → ℕ → UartHeader → Action (ℤ × Bytes)
unfolding handle_uart handle_uart_control serve_template update_modem finish
serve_line d is_control bytes_in h rt = elim d.state [
  | none ↦ (raise attribute_error, rt)
  | some t ↦ elim t [
    | uart_state s ↦
        let (s', reply) = handle_uart s h.input in
        if is_control
        then behind_update d bytes_in
            (update_modem d (handle_uart_control s h.modem_mask h.modem_values) rt)
        else serve_template uart d bytes_in (uart_state s') (pos 0, reply) rt
    | bank b ↦ (raise attribute_error, rt)
    | spi_state s ↦ (raise attribute_error, rt)
  ]
]

abbrev pub uart_request : Bool → UartHeader → Request
uart_request is_control h =
    if is_control
    then uart_control h.input h.modem_mask h.modem_values
    else uart_tx h.input h.modem_mask h.modem_values

unfoldable pub transfer_uart : Meanwhile → Device → Bool → ℕ → ℕ → UartHeader → Action (ℤ × Bytes)
unfolding serve_line serve_controller
transfer_uart m d is_control message_id bytes_in h rt = elim d.backend [
  | template_backend t ↦ serve_line d is_control bytes_in h rt
  | controller_backend w ↦
      serve_controller uart m d bytes_in (event_of d message_id (uart_request is_control h)) rt
]

-- the request once its device is found
unfoldable pub handle_uart_device :
    Meanwhile → Device → Bool → ℕ → ℕ → UartHeader → Action (ℤ × Bytes)
unfolding reject_request unless_fault transfer_uart
handle_uart_device m d is_control message_id bytes_in h rt =
    if not (h.flags == (if is_control then 1 else 0))
    then reject_request (some d) uart bytes_in (neg eproto) rt
    else if not (known_mask h.modem_mask)
    then reject_request (some d) uart bytes_in (neg eopnotsupp) rt
    else unless_fault uart d bytes_in (transfer_uart m d is_control message_id bytes_in h) rt

-- `_handle_uart_request`; the flag is `msg_type == REQ_UART_CTRL`
unfoldable pub handle_uart_request : Meanwhile → Bool → ℕ → Bytes → Action (ℤ × Bytes)
unfolding decode_uart handle_uart_device
handle_uart_request m is_control message_id payload rt = elim (decode_uart payload) [
  | refused status ↦ (ok (status, []), rt)
  | decoded h ↦ elim (device_by_handle h.device_handle rt) [
    | none ↦ (ok (neg enoent, []), rt)
    | some d ↦ handle_uart_device m d is_control message_id (length payload) h rt
  ]
]

-- UART_CFG_STRUCT
pub record UartConfig : Type 0 where
  pub baud_rate : ℕ
  pub cflag : ℕ
  pub iflag : ℕ
  pub oflag : ℕ
  pub lflag : ℕ

abbrev pub read_config : Bytes → UartConfig
read_config payload = record {
  baud_rate = u32_at 4 payload;
  cflag = u32_at 8 payload;
  iflag = u32_at 12 payload;
  oflag = u32_at 16 payload;
  lflag = u32_at 20 payload;
}

-- bit number `n` of a termios word
abbrev pub bit : ℕ → ℕ → Bool
bit n word = word / 2 ^ n % 2 == 1

abbrev current_baud : Settings → ℕ
current_baud i2c_settings = 115200
current_baud (spi_settings s) = 115200
current_baud (uart_settings s) = s.baud_rate

-- `_derive_uart_settings`, with the words that the caller adds: CSIZE 0x30, CSTOPB 0x40, PARENB 0x100,
-- PARODD 0x200, CRTSCTS 0x80000000, IXON 0x400, IXOFF 0x1000
unfoldable pub derive_uart_settings : Settings → UartConfig → UartSettings
derive_uart_settings old c = record {
  baud_rate = if c.baud_rate == 0 then current_baud old else c.baud_rate;
  data_bits = 5 + c.cflag / 16 % 4;
  parity = if bit 8 c.cflag then if bit 9 c.cflag then parity_odd else parity_even else parity_none;
  stop_bits = if bit 6 c.cflag then 2 else 1;
  xonxoff = bit 10 c.iflag || bit 12 c.iflag;
  rtscts = bit 31 c.cflag;
  flags = some (c.cflag, c.iflag, c.oflag, c.lflag);
}

-- `device["settings"].update(settings)` and the snapshot, for a UART device: the kernel configures no
-- other
unfoldable pub store_settings : Device → UartConfig → Runtime → Runtime
unfolding derive_uart_settings modify_device persist_snapshot
store_settings d c rt = persist_snapshot (
    modify_device d.id
      (λ d'. record d' { settings = uart_settings (derive_uart_settings d'.settings c) }) rt)

unfoldable pub configure_uart : Meanwhile → Device → ℕ → ℕ → UartConfig → Action (ℤ × Bytes)
unfolding serve_controller finish
configure_uart m d message_id bytes_in c rt = elim d.backend [
  | template_backend t ↦ finish uart d bytes_in (pos 0, []) rt
  | controller_backend w ↦
      serve_controller uart m d bytes_in
        (event_of (current d rt) message_id
          (uart_config c.baud_rate c.cflag c.iflag c.oflag c.lflag))
        rt
]

-- `_handle_uart_config_request`
unfoldable pub handle_uart_config_request : Meanwhile → ℕ → Bytes → Action (ℤ × Bytes)
unfolding store_settings unless_fault configure_uart
handle_uart_config_request m message_id payload rt =
    let c = read_config payload in
    if not (length payload == 24)
    then (ok (neg eproto, []), rt)
    else elim (device_by_handle (u32_at 0 payload) rt) [
      | none ↦ (ok (neg enoent, []), rt)
      | some d ↦
          let rt' = store_settings d c rt in
          unless_fault uart (current d rt') (length payload)
            (configure_uart m d message_id (length payload) c) rt'
    ]
