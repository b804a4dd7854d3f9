-- ===== src/Runtime/Valid/Handlers.antt =====
-- src/sensorium/runtime/i2c.py, spi.py, uart.py, transport.py and bridge.py: the counters of the daemon over
-- each request handler, and over a round of a bridge worker.
use sensorium.Base.{
  ℕ, Bool, true, false, Bool-cases, Option-cases, inl, inr, List, none, some, Bytes, length, map, ℤ,
  pos,
}
use sensorium.Template.I2c.{Message, handle_i2c}
use sensorium.Template.Spi.{handle_spi_message}
use sensorium.Device.{Device, Transport, Template, bank, spi_state, i2c, spi}
use sensorium.Device.Cases.{
  Backend-cases, of_template, of_external, of_worker, State-cases, no_state, of_bank, of_spi,
  of_uart,
}
use sensorium.Runtime.{Runtime, Event, Action, i2c_xfer, spi_xfer, SpiTransfer}
use sensorium.Runtime.Requests.{fault_before, device_by_handle}
use sensorium.Runtime.Dispatch.{Meanwhile, dispatch_controller}
use sensorium.Runtime.Serve.{
  Decoded-cases, current, finish, unless_fault, serve_template, serve_controller, event_of,
}
use sensorium.Runtime.SpiRequest.{
  SpiHeader, default_bits, read_transfers, decode_spi, selects, to_template, serve_script,
  transfer_spi, handle_spi_device, refuse_spi, handle_spi_request,
}
use sensorium.Runtime.I2cRequest.{
  decode_i2c, mixed_addresses, serve_bank, transfer_i2c, handle_i2c_request,
}
use sensorium.Runtime.Valid.{
  IsValid, modify_device-IsValid, fault_before-IsValid, finalize_request-IsValid,
  reject_request-IsValid,
}
use sensorium.Runtime.Valid.Calls.{dispatch_controller-IsValid}

-- an operation that keeps the counters
abbrev pub Keeps : {A : Type 0} → Action A → Type 0
Keeps act = (rt : Runtime) → IsValid rt → IsValid (act rt).1

pub finish-Keeps :
    (kind : Transport) (d : Device) (n : ℕ) (a : ℤ × Bytes) → Keeps (finish kind d n a)
unfolding finish
finish-Keeps kind d n (status, reply) rt v =
    finalize_request-IsValid (current d rt) kind n status reply rt v

pub unless_fault-Keeps :
    (kind : Transport) (d : Device) (n : ℕ) (rest : Action (ℤ × Bytes))
    → Keeps rest
    → Keeps (unless_fault kind d n rest)
unfolding unless_fault
unless_fault-Keeps kind d n rest keeps rt v =
    let v' = fault_before-IsValid d rt v in
    elim (Option-cases (fault_before d rt).0) [
      | inl e ↦ rw (e, unless_fault) (keeps (fault_before d rt).1 v')
      | inr (a, e) ↦ rw (e, unless_fault) (finish-Keeps kind d n a (fault_before d rt).1 v')
    ]

pub serve_template-Keeps :
    (kind : Transport) (d : Device) (n : ℕ) (t : Template) (a : ℤ × Bytes)
    → Keeps (serve_template kind d n t a)
unfolding serve_template
serve_template-Keeps kind d n t a rt v =
    finish-Keeps kind d n a _
      (modify_device-IsValid d.id (λ d'. record d' { state = some t }) rt (λ d' c. c) v)

pub serve_controller-Keeps :
    (kind : Transport) (m : Meanwhile) (d : Device) (n : ℕ) (e : Event)
    → Keeps (serve_controller kind m d n e)
unfolding serve_controller
serve_controller-Keeps kind m d n e rt v =
    finish-Keeps kind d n (dispatch_controller m d e rt).0 (dispatch_controller m d e rt).1
      (dispatch_controller-IsValid m d e rt v)

serve_bank-Keeps : (d : Device) (n : ℕ) (ms : List Message) → Keeps (serve_bank d n ms)
unfolding serve_bank
serve_bank-Keeps d n ms rt v = elim (State-cases d.state) [
  | no_state e ↦ rw (e, serve_bank) v
  | of_bank b e ↦
      rw (e, serve_bank)
        (serve_template-Keeps i2c d n (bank (handle_i2c b ms).0) (pos 0, (handle_i2c b ms).1) rt v)
  | of_spi s e ↦ rw (e, serve_bank) v
  | of_uart s e ↦ rw (e, serve_bank) v
]

transfer_i2c-Keeps :
    (m : Meanwhile) (d : Device) (id n : ℕ) (ms : List Message) → Keeps (transfer_i2c m d id n ms)
unfolding transfer_i2c
transfer_i2c-Keeps m d id n ms rt v =
    let served = serve_controller-Keeps i2c m d n (event_of d id (i2c_xfer ms)) rt v in
    elim (Bool-cases (mixed_addresses d.address ms)) [
      | inl mixed ↦ rw (mixed, transfer_i2c) (reject_request-IsValid (some d) i2c n _ rt v)
      | inr same ↦ elim (Backend-cases d.backend) [
        | of_template t e ↦ rw (same, e, transfer_i2c) (serve_bank-Keeps d n ms rt v)
        | of_external e ↦ rw (same, e, transfer_i2c) served
        | of_worker w e ↦ rw (same, e, transfer_i2c) served
      ]
    ]

pub handle_i2c_request-Keeps :
    (m : Meanwhile) (id : ℕ) (payload : Bytes) → Keeps (handle_i2c_request m id payload)
unfolding handle_i2c_request
handle_i2c_request-Keeps m id payload rt v = elim (Decoded-cases (decode_i2c payload)) [
  | inl (status, e) ↦ rw (e, handle_i2c_request) v
  | inr ((h, ms), e) ↦ elim (Option-cases (device_by_handle h rt)) [
    | inl none_there ↦ rw (e, none_there, handle_i2c_request) v
    | inr (d, there) ↦
        rw (e, there, handle_i2c_request)
          (unless_fault-Keeps i2c d (length payload) (transfer_i2c m d id (length payload) ms)
            (transfer_i2c-Keeps m d id (length payload) ms) rt v)
  ]
]

serve_script-Keeps : (d : Device) (n : ℕ) (ts : List SpiTransfer) → Keeps (serve_script d n ts)
unfolding serve_script
serve_script-Keeps d n ts rt v = elim (State-cases d.state) [
  | no_state e ↦ rw (e, serve_script) v
  | of_spi s e ↦
      let r = handle_spi_message s (map to_template ts) in
      rw (e, serve_script) (serve_template-Keeps spi d n (spi_state r.0) (pos 0, r.1) rt v)
  | of_bank b e ↦ rw (e, serve_script) v
  | of_uart s e ↦ rw (e, serve_script) v
]

transfer_spi-Keeps :
    (m : Meanwhile) (d : Device) (id n : ℕ) (h : SpiHeader) (ts : List SpiTransfer)
    → Keeps (transfer_spi m d id n h ts)
unfolding transfer_spi
transfer_spi-Keeps m d id n h ts rt v =
    let served =
      serve_controller-Keeps spi m d n (event_of d id (spi_xfer h.mode h.chip_select ts)) rt v in
    elim (Backend-cases d.backend) [
      | of_template t e ↦ rw (e, transfer_spi) (serve_script-Keeps d n ts rt v)
      | of_external e ↦ rw (e, transfer_spi) served
      | of_worker w e ↦ rw (e, transfer_spi) served
    ]

handle_spi_device-Keeps :
    (m : Meanwhile) (d : Device) (id n : ℕ) (h : SpiHeader) → Keeps (handle_spi_device m d id n h)
unfolding handle_spi_device
handle_spi_device-Keeps m d id n h rt v = elim (Bool-cases (selects d.chip_select h.chip_select)) [
  | inr other ↦ rw (other, handle_spi_device) (reject_request-IsValid (some d) spi n _ rt v)
  | inl same ↦ elim (Decoded-cases (read_transfers (default_bits d.settings) h.descs h.tx)) [
    | inl (status, e) ↦
        rw (same, e, handle_spi_device) (reject_request-IsValid (some d) spi n status rt v)
    | inr (ts, e) ↦
        rw (same, e, handle_spi_device)
          (unless_fault-Keeps spi d n (transfer_spi m d id n h ts)
            (transfer_spi-Keeps m d id n h ts) rt v)
  ]
]

refuse_spi-Keeps : (n : ℕ) (status : ℤ) (traced : Bool) → Keeps (refuse_spi n status traced)
refuse_spi-Keeps n status true rt v = reject_request-IsValid none spi n status rt v
refuse_spi-Keeps n status false rt v = v

pub handle_spi_request-Keeps :
    (m : Meanwhile) (id : ℕ) (payload : Bytes) → Keeps (handle_spi_request m id payload)
unfolding handle_spi_request
handle_spi_request-Keeps m id payload rt v = elim (Decoded-cases (decode_spi payload).0) [
  | inl (status, e) ↦
      rw (e, handle_spi_request)
        (refuse_spi-Keeps (length payload) status (decode_spi payload).1 rt v)
  | inr (h, e) ↦ elim (Option-cases (device_by_handle h.device_handle rt)) [
    | inl none_there ↦ rw (e, none_there, handle_spi_request) v
    | inr (d, there) ↦
        rw (e, there, handle_spi_request) (handle_spi_device-Keeps m d id (length payload) h rt v)
  ]
]
