-- ===== src/Runtime/Valid/Uart.antt =====
-- src/sensorium/runtime/uart.py: the counters of the daemon over the UART handlers.
use sensorium.Base.{
  ℕ, Bool, Bool-cases, Option-cases, inl, inr, List, [], some, if◌then◌else◌, ◌==◌, Bytes, Text,
  length, u32_at, pos,
}
use sensorium.Base.Result.{Result, ok, raise}
use sensorium.Template.Uart.{handle_uart, handle_uart_control, collect_bits}
use sensorium.Bridge.Protocol.{cmd_uart_set_modem}
use sensorium.Device.{Device, uart_state, uart, uart_settings}
use sensorium.Device.Cases.{
  Backend-cases, of_template, of_external, of_worker, State-cases, no_state, of_bank, of_spi,
  of_uart,
}
use sensorium.Runtime.{Runtime, uart_config}
use sensorium.Runtime.Outside.{write_frame, command}
use sensorium.Runtime.Requests.{device_by_handle}
use sensorium.Runtime.Backends.{modem_payload}
use sensorium.Runtime.Dispatch.{Meanwhile}
use sensorium.Runtime.Serve.{Decoded-cases, current, event_of}
use sensorium.Runtime.UartRequest.{
  UartHeader, decode_uart, known_mask, update_modem, behind_update, serve_line, uart_request,
  transfer_uart, handle_uart_device, handle_uart_request, UartConfig, read_config,
  derive_uart_settings, store_settings, configure_uart, handle_uart_config_request,
}
use sensorium.Runtime.Valid.{
  IsValid, write_entry-IsValid, persist_snapshot-IsValid, modify_device-IsValid,
  reject_request-IsValid,
}
use sensorium.Runtime.Valid.Handlers.{
  Keeps, finish-Keeps, unless_fault-Keeps, serve_template-Keeps, serve_controller-Keeps,
}

update_modem-Keeps : (d : Device) (updates : List (Text × Bool)) → Keeps (update_modem d updates)
unfolding update_modem write_frame
update_modem-Keeps d updates rt v =
    let bits = collect_bits updates (0, 0) in
    elim (Bool-cases (bits.0 == 0)) [
      | inl e ↦ rw (e, update_modem) v
      | inr e ↦
          rw (e, update_modem)
            (write_entry-IsValid (command cmd_uart_set_modem (modem_payload d.handle bits)) rt v)
    ]

behind_update-IsValid :
    (d : Device) (n : ℕ) (r : Result (Unit {0}) × Runtime)
    → IsValid r.1
    → IsValid (behind_update d n r).1
behind_update-IsValid d n (raise e, rt) v = v
behind_update-IsValid d n (ok _, rt) v = finish-Keeps uart d n (pos 0, []) rt v

serve_line-Keeps : (d : Device) (c : Bool) (n : ℕ) (h : UartHeader) → Keeps (serve_line d c n h)
unfolding serve_line
serve_line-Keeps d c n h rt v = elim (State-cases d.state) [
  | no_state e ↦ rw (e, serve_line) v
  | of_bank b e ↦ rw (e, serve_line) v
  | of_spi s e ↦ rw (e, serve_line) v
  | of_uart s e ↦
      let updates = handle_uart_control s h.modem_mask h.modem_values in
      let r = handle_uart s h.input in
      elim (Bool-cases c) [
        | inl is_control ↦
            rw (e, is_control, serve_line)
              (behind_update-IsValid d n (update_modem d updates rt)
                (update_modem-Keeps d updates rt v))
        | inr is_tx ↦
            rw (e, is_tx, serve_line)
              (serve_template-Keeps uart d n (uart_state r.0) (pos 0, r.1) rt v)
      ]
]

transfer_uart-Keeps :
    (m : Meanwhile) (d : Device) (c : Bool) (id n : ℕ) (h : UartHeader)
    → Keeps (transfer_uart m d c id n h)
unfolding transfer_uart
transfer_uart-Keeps m d c id n h rt v =
    let served = serve_controller-Keeps uart m d n (event_of d id (uart_request c h)) rt v in
    elim (Backend-cases d.backend) [
      | of_template t e ↦ rw (e, transfer_uart) (serve_line-Keeps d c n h rt v)
      | of_external e ↦ rw (e, transfer_uart) served
      | of_worker w e ↦ rw (e, transfer_uart) served
    ]

handle_uart_device-Keeps :
    (m : Meanwhile) (d : Device) (c : Bool) (id n : ℕ) (h : UartHeader)
    → Keeps (handle_uart_device m d c id n h)
unfolding handle_uart_device
handle_uart_device-Keeps m d c id n h rt v = elim (Bool-cases (h.flags == (if c then 1 else 0))) [
  | inr other ↦ rw (other, handle_uart_device) (reject_request-IsValid (some d) uart n _ rt v)
  | inl same ↦ elim (Bool-cases (known_mask h.modem_mask)) [
    | inr unknown ↦
        rw (same, unknown, handle_uart_device) (reject_request-IsValid (some d) uart n _ rt v)
    | inl known ↦
        rw (same, known, handle_uart_device)
          (unless_fault-Keeps uart d n (transfer_uart m d c id n h)
            (transfer_uart-Keeps m d c id n h) rt v)
  ]
]

pub handle_uart_request-Keeps :
    (m : Meanwhile) (c : Bool) (id : ℕ) (payload : Bytes)
    → Keeps (handle_uart_request m c id payload)
unfolding handle_uart_request
handle_uart_request-Keeps m c id payload rt v = elim (Decoded-cases (decode_uart payload)) [
  | inl (status, e) ↦ rw (e, handle_uart_request) v
  | inr (h, e) ↦ elim (Option-cases (device_by_handle h.device_handle rt)) [
    | inl none_there ↦ rw (e, none_there, handle_uart_request) v
    | inr (d, there) ↦
        rw (e, there, handle_uart_request)
          (handle_uart_device-Keeps m d c id (length payload) h rt v)
  ]
]

store_settings-IsValid :
    (d : Device) (c : UartConfig) (rt : Runtime) → IsValid rt → IsValid (store_settings d c rt)
unfolding store_settings
store_settings-IsValid d c rt v = persist_snapshot-IsValid _ (
    modify_device-IsValid d.id
      (λ d'. record d' { settings = uart_settings (derive_uart_settings d'.settings c) }) rt
      (λ d' p. p) v)

configure_uart-Keeps :
    (m : Meanwhile) (d : Device) (id n : ℕ) (c : UartConfig) → Keeps (configure_uart m d id n c)
unfolding configure_uart
configure_uart-Keeps m d id n c rt v =
    let served =
      serve_controller-Keeps uart m d n
        (event_of (current d rt) id (uart_config c.baud_rate c.cflag c.iflag c.oflag c.lflag)) rt
        v in
    elim (Backend-cases d.backend) [
      | of_template t e ↦ rw (e, configure_uart) (finish-Keeps uart d n (pos 0, []) rt v)
      | of_external e ↦ rw (e, configure_uart) served
      | of_worker w e ↦ rw (e, configure_uart) served
    ]

pub handle_uart_config_request-Keeps :
    (m : Meanwhile) (id : ℕ) (payload : Bytes) → Keeps (handle_uart_config_request m id payload)
unfolding handle_uart_config_request
handle_uart_config_request-Keeps m id payload rt v = elim (Bool-cases (length payload == 24)) [
  | inr short ↦ rw (short, handle_uart_config_request) v
  | inl whole ↦ elim (Option-cases (device_by_handle (u32_at 0 payload) rt)) [
    | inl none_there ↦ rw (whole, none_there, handle_uart_config_request) v
    | inr (d, there) ↦
        let c = read_config payload in
        let rt' = store_settings d c rt in
        let v' = store_settings-IsValid d c rt v in
        rw (whole, there, handle_uart_config_request)
          (unless_fault-Keeps uart (current d rt') (length payload)
            (configure_uart m d id (length payload) c)
            (configure_uart-Keeps m d id (length payload) c) rt' v')
  ]
]
