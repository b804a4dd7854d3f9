-- ===== src/Device.antt =====
-- src/sensorium/runtime/state.py, internal.py and inventory.py: a device as the daemon keeps it, its
-- counters, its faults and its template. Left out of a device are its metadata, which nothing reads, and
-- the time stamps. A hex text is the bytes that it is read to.
pub mod Counts
pub mod Faults
pub mod Cases
mod Tests
use sensorium.Base.{
  ℕ, ◌+◌, ◌-◌, ◌/◌, max, Bool, true, false, not, ◌&&◌, List, [], ◌∷◌, Option, none, some,
  if◌then◌else◌, ltb, ◌==◌, Bytes, Text, length, take, ℤ, pos, neg, int_eq,
}
use sensorium.Template.I2c
use sensorium.Template.Spi
use sensorium.Template.Uart

-- the numbers of `errno` that the daemon answers with
abbrev pub enoent : ℕ
enoent = 2

abbrev pub eio : ℕ
eio = 5

abbrev pub ebusy : ℕ
ebusy = 16

abbrev pub enodev : ℕ
enodev = 19

abbrev pub einval : ℕ
einval = 22

abbrev pub epipe : ℕ
epipe = 32

abbrev pub eproto : ℕ
eproto = 71

abbrev pub eopnotsupp : ℕ
eopnotsupp = 95

abbrev pub etimedout : ℕ
etimedout = 110

pub data Transport : Type 0 where
  i2c spi uart : Transport

-- RUNTIME_FAULT_MODES
pub data FaultMode : Type 0 where
  fault_none fault_timeout fault_errno fault_disconnect fault_short_reply : FaultMode

pub record Fault : Type 0 where
  pub mode : FaultMode
  pub remaining : ℕ
  pub errno : Option ℕ
  pub reply_data : Option Bytes

-- `{"mode": "none", "remaining": 0}`
abbrev pub no_fault : Fault
no_fault = record { mode = fault_none; remaining = 0; errno = none; reply_data = none }

-- a bucket of `_fresh_stats`
pub record Stats : Type 0 where
  pub requests : ℕ
  pub ok_count : ℕ
  pub errors : ℕ
  pub timeouts : ℕ
  pub bytes_in : ℕ
  pub bytes_out : ℕ
  pub last_error : Option ℤ

abbrev pub fresh_stats : Stats
fresh_stats = record {
  requests = 0;
  ok_count = 0;
  errors = 0;
  timeouts = 0;
  bytes_in = 0;
  bytes_out = 0;
  last_error = none;
}

-- the body of `for bucket in buckets` in `_record_stats`
unfoldable pub count : ℤ → ℕ → ℕ → Stats → Stats
count status bytes_in bytes_out s =
    let timed_out = if int_eq status (neg etimedout) then s.timeouts + 1 else s.timeouts in
    let s' = record s {
      requests = s.requests + 1;
      bytes_in = s.bytes_in + bytes_in;
      bytes_out = s.bytes_out + bytes_out;
    } in
    if int_eq status (pos 0)
    then record s' { ok_count = s.ok_count + 1; last_error = none }
    else record s' { errors = s.errors + 1; last_error = some status; timeouts = timed_out }

-- `_consume_fault`: a countdown that reaches 0 ends the fault, and 0 at the start is no countdown
unfoldable pub consume_fault : Fault → Fault
consume_fault f =
    if ltb 0 f.remaining
    then if f.remaining - 1 == 0 then no_fault else record f { remaining = f.remaining - 1 }
    else f

abbrev fault_errno_or_eio : Option ℕ → ℕ
fault_errno_or_eio none = eio
fault_errno_or_eio (some n) = n

-- `_apply_fault_pre`: the fault that is left, and the reply that takes the device's place
unfoldable pub apply_fault_pre : Fault → Fault × Option (ℤ × Bytes)
unfolding consume_fault
apply_fault_pre f = elim f.mode [
  | fault_none ↦ (f, none)
  | fault_timeout ↦ (consume_fault f, some (neg etimedout, []))
  | fault_disconnect ↦ (consume_fault f, some (neg enodev, []))
  | fault_errno ↦ (consume_fault f, some (neg (fault_errno_or_eio f.errno), []))
  | fault_short_reply ↦ (f, none)
]

-- the reply that `short-reply` gives in place of `data`: its own, or the first half of two or more bytes
unfoldable pub shorten : Option Bytes → Bytes → Bytes
shorten (some (b ∷ bs)) reply = b ∷ bs
shorten _ reply = if ltb 1 (length reply) then take (max 1 (length reply / 2)) reply else reply

-- `_apply_fault_post`
unfoldable pub apply_fault_post : Fault → ℤ → Bytes → Fault × ℤ × Bytes
unfolding consume_fault shorten
apply_fault_post f status reply = elim f.mode [
  | fault_none ↦ (f, status, reply)
  | fault_timeout ↦ (f, status, reply)
  | fault_disconnect ↦ (f, status, reply)
  | fault_errno ↦ (f, status, reply)
  | fault_short_reply ↦
      if int_eq status (pos 0)
      then (consume_fault f, status, shorten f.reply_data reply)
      else (f, status, reply)
]

-- the built-in backends, by the name in `backend["template"]`
pub data TemplateSpec : Type 0 where
  i2c_register_bank : I2c.Backend → TemplateSpec
  spi_script : Spi.Backend → TemplateSpec
  uart_script : Uart.Script → TemplateSpec

pub record Worker : Type 0 where
  pub command : List Text
  pub restart_limit : ℕ
  pub restart_backoff_ms : ℕ

-- `backend["kind"]`
pub data Backend : Type 0 where
  template_backend : TemplateSpec → Backend
  controller_backend : Option Worker → Backend

-- `device["template"]`
pub data Template : Type 0 where
  bank : I2c.Bank → Template
  spi_state : Spi.Script → Template
  uart_state : Uart.Script → Template

-- `_build_template`. The constructor of the UART script only adds an empty line buffer.
unfoldable pub build_template : Backend → Option Template
build_template (controller_backend worker) = none
build_template (template_backend (i2c_register_bank b)) = some (bank (I2c.init b))
build_template (template_backend (spi_script b)) = some (spi_state (Spi.init b))
build_template (template_backend (uart_script s)) =
    some (uart_state (record s { line_buffer = [] }))

pub record SpiSettings : Type 0 where
  pub mode : ℕ
  pub bits_per_word : ℕ
  pub max_speed_hz : ℕ

pub data Parity : Type 0 where
  parity_none parity_odd parity_even : Parity

-- The termios words that the kernel passes on stay words: cflag, iflag, oflag, lflag.
pub record UartSettings : Type 0 where
  pub baud_rate : ℕ
  pub data_bits : ℕ
  pub parity : Parity
  pub stop_bits : ℕ
  pub xonxoff : Bool
  pub rtscts : Bool
  pub flags : Option (ℕ × ℕ × ℕ × ℕ)

pub data Settings : Type 0 where
  i2c_settings : Settings
  spi_settings : SpiSettings → Settings
  uart_settings : UartSettings → Settings

-- an entry of `self.devices`; `degraded` is whether `degraded_reason` is set
pub record Device : Type 0 where
  pub id : Text
  pub bus : Text
  pub transport : Transport
  pub address : Option ℕ
  pub chip_select : Option ℕ
  pub device_name : Option Text
  pub port_name : Option Text
  pub backend : Backend
  pub faults : Fault
  pub settings : Settings
  pub handle : ℕ
  pub bus_handle : ℕ
  pub kernel_name : Text
  pub state : Option Template
  pub attached_backend : Option Text
  pub degraded : Bool
  pub stats : Stats
