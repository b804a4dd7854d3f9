-- ===== src/Runtime.antt =====
-- The state of the daemon, class SensoriumRuntime of src/sensorium/cli/sensoriumd.py with the mixins of
-- src/sensorium/runtime. Times, texts of reasons and the lock objects are left out: each operation here is
-- what the source does under `self.lock`, and where it waits, what the other threads do meanwhile is
-- an argument.
pub mod Outside
pub mod Requests
pub mod Backends
pub mod Dispatch
pub mod Serve
pub mod I2cRequest
pub mod SpiRequest
pub mod UartRequest
pub mod Routes
pub mod Valid
pub mod Replies
pub mod Workers
pub mod Inventory
pub mod Apply
pub mod Resync
pub mod Startup
mod Tests
use sensorium.Base.{
  ℕ, ◌+◌, max, Bool, true, false, List, [], ◌∷◌, Option, none, some, Bytes, Text, ℤ, pos, neg,
}
use sensorium.Base.Result.{Error, Result}
use sensorium.Trace.{Writer}
use sensorium.Bridge.{Metrics, Entry}
use sensorium.Template.I2c
use sensorium.Device.{Device, Fault, Settings, Transport, Stats, Worker, fresh_stats}

-- RUNTIME_DAEMON_STATES
pub data DaemonState : Type 0 where
  empty applying ready degraded desynced : DaemonState

pub record Bus : Type 0 where
  pub id : Text
  pub transport : Transport
  pub name : Text
  pub handle : ℕ

-- a transfer of a SPI request, as the controller is shown it
pub record SpiTransfer : Type 0 where
  pub len : ℕ
  pub speed_hz : ℕ
  pub delay_usecs : ℕ
  pub bits_per_word : ℕ
  pub cs_change : ℕ
  pub tx_nbits : ℕ
  pub rx_nbits : ℕ
  pub word_delay_usecs : ℕ
  pub has_tx : Bool
  pub has_rx : Bool
  pub tx : Bytes

-- what an event asks for; the third number of `uart_config` on are cflag, iflag, oflag and lflag
pub data Request : Type 0 where
  i2c_xfer : List I2c.Message → Request
  spi_xfer : ℕ → ℕ → List SpiTransfer → Request
  uart_tx : Bytes → ℕ → ℕ → Request
  uart_control : Bytes → ℕ → ℕ → Request
  uart_config : ℕ → ℕ → ℕ → ℕ → ℕ → Request

pub record Event : Type 0 where
  pub request_id : ℕ
  pub device_id : Text
  pub bus_id : Text
  pub backend_id : Option Text
  pub request : Request
  pub faults : Fault
  pub settings : Settings

-- class ControllerPending
pub record Pending : Type 0 where
  pub event : Event
  pub done : Bool
  pub status : ℤ
  pub reply : Bytes

-- `_fresh_bridge_stats`, the counters
pub record BridgeStats : Type 0 where
  pub session_id : Option ℕ
  pub queue_depth : ℕ
  pub queue_depth_max : ℕ
  pub inflight : ℕ
  pub inflight_max : ℕ
  pub bridge_errors : ℕ
  pub busy_rejections_generation : ℕ
  pub busy_rejections_total : ℕ
  pub late_replies : ℕ
  pub completed : ℕ
  pub control_depth : ℤ
  pub transport_depth : ℤ
  pub reply_depth : ℤ
  pub ebusy_generation : ℕ
  pub ebusy_total : ℕ
  pub request_timeout_generation : ℕ
  pub request_timeout_total : ℕ
  pub worker_restarts : ℕ

pub record TraceRecord : Type 0 where
  pub transport : Transport
  pub device_id : Option Text
  pub bus_id : Option Text
  pub status : ℤ
  pub reply : Bytes

-- What stands outside: the frames that the bridge took, oldest first, and what its next calls will
-- give; the kernel's counters; whether the next writes of the snapshot file, and the next starts of worker
-- processes, succeed; and the length of a trace record's JSON line.
pub record Port : Type 0 where
  pub sent : List Entry
  pub outcomes : List (Result (Unit {0}))
  pub metrics : Option Metrics
  pub file_writes : List Bool
  pub launches : List Bool
  pub record_size : TraceRecord → ℕ

-- `persistence`, as far as the snapshot goes
pub record Persistence : Type 0 where
  pub snapshot_write_errors : ℕ
  pub snapshot_failed : Bool
  pub snapshot_saved : Bool
  pub snapshot_loaded : Bool

-- a running worker process: `state` of `_launch_managed_worker_locked`
pub record WorkerState : Type 0 where
  pub restart_limit : ℕ
  pub restart_backoff_ms : ℕ
  pub restart_count : ℕ
  pub stop_requested : Bool
  pub failed : Bool

-- `devices_by_handle` names the device object by its id in `devices`. `released` are the
-- `ControllerPending` objects that are out of the dictionary while a request may still wait on them. A request in
-- progress over a reset or a new model counts on the device of its id, where the source counts on the old object.
pub record Runtime : Type 0 where
  pub runtime_state : DaemonState
  pub generation : ℕ
  pub model_name : Option Text
  pub next_bus_handle : ℕ
  pub next_device_handle : ℕ
  pub buses : List (Text × Bus)
  pub devices : List (Text × Device)
  pub devices_by_handle : List (ℕ × Text)
  pub managed_workers : List (Text × WorkerState)
  pub backend_queues : List (Text × List Event)
  pub pending_controller : List (ℕ × Pending)
  pub released : List (ℕ × Pending)
  pub trace : List TraceRecord
  pub trace_limit : ℕ
  pub trace_writer : Writer TraceRecord
  pub stats_totals : Stats
  pub bridge_stats : BridgeStats
  pub persistence : Persistence
  pub snapshot_path : Bool
  pub port : Port

-- An operation that may raise: what was changed before that stays changed.
abbrev pub Action : Type 0 → Type 0
Action A = Runtime → Result A × Runtime
