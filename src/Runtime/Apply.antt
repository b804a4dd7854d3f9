-- ===== src/Runtime/Apply.antt =====
-- src/sensorium/runtime/inventory.py, `reset_runtime` and `apply_model`, and the parts of state.py that a
-- roll-back uses. What a roll-back applies is what the daemon exported, which normalization is taken to
-- accept; the attachments are in the order of the devices, where the source sorts them.
pub mod Tables
pub mod Attached
pub mod Placing
pub mod Outcome
pub mod Kept
use sensorium.Base.{
  ℕ, ◌+◌, Bool, true, false, not, ◌&&◌, List, [], ◌∷◌, ◌++◌, map, Option, none, some, if◌then◌else◌,
  Bytes, Text, length, lookup, insert, bytes_eq, ◌==◌, pos,
}
use sensorium.Base.Result.{Error, Result, ok, raise, runtime_error, ◌>>=◌, ◌>>◌}
use sensorium.Trace.{reset_counters}
use sensorium.Bridge.Protocol.{cmd_reset}
use sensorium.Device.{
  template_backend, controller_backend, Device, Settings, i2c_settings, spi_settings, uart_settings,
  fresh_stats,
}
use sensorium.Runtime.{
  Runtime, DaemonState, empty, applying, ready, desynced, Bus, Event, BridgeStats, Persistence,
  Action,
}
use sensorium.Runtime.Outside.{write_frame, refresh_bridge_metrics, persist_snapshot}
use sensorium.Runtime.Backends.{guarded, attach_backend_locked, attachable, assert_mutation_allowed}
use sensorium.Runtime.Workers.{start_workers}
use sensorium.Runtime.Inventory.{BusSpec, DeviceSpec, Model, ◌and_then◌, add_bus, add_device}

-- what `_clear_state` keeps of the statistics
abbrev cleared_stats : BridgeStats → BridgeStats
cleared_stats s = record s {
  queue_depth = 0;
  queue_depth_max = 0;
  inflight = 0;
  inflight_max = 0;
  busy_rejections_generation = 0;
  control_depth = pos 0;
  transport_depth = pos 0;
  reply_depth = pos 0;
  ebusy_generation = 0;
  request_timeout_generation = 0;
  worker_restarts = 0;
}

abbrev empty_queue : Text × List Event → Text × List Event
empty_queue (backend_id, events) = (backend_id, [])

-- `_clear_state`; the trace stays. A request that waits keeps its `ControllerPending`, which is out of the dictionary now.
unfoldable pub clear_state : Runtime → Runtime
unfolding reset_counters
clear_state rt = record rt {
  trace_writer = reset_counters rt.trace_writer;
  model_name = none;
  next_bus_handle = 1;
  next_device_handle = 1024;
  managed_workers = [];
  buses = [];
  devices = [];
  devices_by_handle = [];
  pending_controller = [];
  released = rt.pending_controller ++ rt.released;
  stats_totals = fresh_stats;
  bridge_stats = cleared_stats rt.bridge_stats;
  backend_queues = map empty_queue rt.backend_queues;
}

abbrev pub set_state : DaemonState → Runtime → Runtime
set_state s rt = record rt { runtime_state = s }

-- `self.persistence["last_snapshot_error"] = None`
abbrev pub no_snapshot_error : Runtime → Runtime
no_snapshot_error rt =
    let p : Persistence = record (rt.persistence) { snapshot_failed = false } in
    record rt { persistence = p }

-- `reset_runtime`
unfoldable pub reset_runtime : Action (Unit {0})
unfolding assert_mutation_allowed write_frame clear_state persist_snapshot
reset_runtime = guarded (λ rt. write_frame cmd_reset [] rt and_then λ _ rt'.
    let cleared = no_snapshot_error (set_state empty (clear_state rt')) in
    (ok tt, persist_snapshot (record cleared { generation = cleared.generation + 1 })))

unfoldable pub add_buses : List BusSpec → Action (Unit {0})
unfolding add_bus
add_buses [] rt = (ok tt, rt)
add_buses (b ∷ bs) rt = add_bus b rt and_then λ _ rt'. add_buses bs rt'

unfoldable pub add_devices : List DeviceSpec → Action (Unit {0})
unfolding add_device
add_devices [] rt = (ok tt, rt)
add_devices (d ∷ ds) rt = add_device d rt and_then λ _ rt'. add_devices ds rt'

unfoldable pub attach_all : List (Text × List Text) → Action (Unit {0})
unfolding attach_backend_locked
attach_all [] rt = (ok tt, rt)
attach_all ((backend_id, []) ∷ rest) rt = attach_all rest rt
attach_all ((backend_id, id ∷ ids) ∷ rest) rt =
    attach_backend_locked backend_id (id ∷ ids) rt and_then λ _ rt'. attach_all rest rt'

-- the end of `_apply_model_locked`
abbrev pub set_ready : ℕ → Runtime → Runtime
set_ready generation rt = record (no_snapshot_error rt) {
  generation = generation;
  runtime_state = ready;
}

abbrev pub now_ready : ℕ → Runtime → Runtime
now_ready generation rt = persist_snapshot (set_ready generation rt)

-- `_apply_model_locked`
unfoldable pub apply_locked : Model → ℕ → List (Text × List Text) → Action (Unit {0})
unfolding add_buses add_devices start_workers attach_all persist_snapshot
apply_locked m generation attachments rt =
    add_buses m.buses (record rt { model_name = some m.name }) and_then λ _ rt1.
    add_devices m.devices rt1 and_then λ _ rt2.
    attach_all attachments (start_workers rt2.devices rt2) and_then λ _ rt3.
    (ok tt, now_ready generation rt3)

-- the snapshot that `apply_model` keeps: the exported model and the attachments
pub record Snapshot : Type 0 where
  pub model : Model
  pub attachments : List (Text × List Text)

-- what normalization leaves of the settings: the termios words are dropped
abbrev exported_settings : Settings → Settings
exported_settings i2c_settings = i2c_settings
exported_settings (spi_settings s) = spi_settings s
exported_settings (uart_settings s) = uart_settings (record s { flags = none })

abbrev export_bus : Text × Bus → BusSpec
export_bus (id, b) = record { id = b.id; transport = b.transport; name = b.name }

abbrev export_device : Text × Device → DeviceSpec
export_device (id, d) = record {
  id = d.id;
  bus = d.bus;
  transport = d.transport;
  address = d.address;
  chip_select = d.chip_select;
  device_name = d.device_name;
  port_name = d.port_name;
  backend = d.backend;
  faults = d.faults;
  settings = exported_settings d.settings;
}

abbrev name_or : Option Text → Text
name_or none = b'r' ∷ b'u' ∷ b'n' ∷ b't' ∷ b'i' ∷ b'm' ∷ b'e' ∷ []
name_or (some name) = name

abbrev add_attachment : Text → Option (List Text) → List Text
add_attachment id none = id ∷ []
add_attachment id (some ids) = ids ++ id ∷ []

-- `_snapshot_backend_attachments_locked`, the ids collected so far first
unfoldable pub collect_attachments :
    List (Text × List Text) → List (Text × Device) → List (Text × List Text)
collect_attachments acc [] = acc
collect_attachments acc ((id, d) ∷ rest) =
    collect_attachments
      (elim d.attached_backend [
        | none ↦ acc
        | some b ↦ insert bytes_eq b (add_attachment id (lookup bytes_eq b acc)) acc
      ])
      rest

-- `_snapshot_payload_locked`, whose health summary also refreshes the metrics
unfoldable pub take_snapshot : Runtime → Snapshot
unfolding collect_attachments
take_snapshot rt = record {
  model = record {
    name = name_or rt.model_name;
    buses = map export_bus rt.buses;
    devices = map export_device rt.devices;
  };
  attachments = collect_attachments [] rt.devices;
}

abbrev pub has_model : Runtime → Bool
has_model rt = not (
    length rt.buses == 0
    && length rt.devices == 0
    && (elim rt.model_name [ none ↦ true | some n ↦ length n == 0 ]))

-- the previous snapshot of `apply_model`, and the state `applying`
unfoldable pub begin_apply : Runtime → Option Snapshot × Runtime
unfolding take_snapshot refresh_bridge_metrics
begin_apply rt =
    if has_model rt
    then (some (take_snapshot rt), set_state applying (refresh_bridge_metrics rt))
    else (none, set_state applying rt)

-- the `try` block of `apply_model`
unfoldable pub try_apply : Model → ℕ → Action (Unit {0})
unfolding write_frame clear_state apply_locked
try_apply m generation rt =
    write_frame cmd_reset [] rt and_then λ _ rt'. apply_locked m generation [] (clear_state rt')

-- `_discard_runtime_state_after_failure`, behind the reset
unfoldable pub discarded : Result (Unit {0}) × Runtime → Result (Unit {0}) × Runtime
unfolding clear_state persist_snapshot
discarded (ok _, rt) = (ok tt, persist_snapshot (set_state empty (clear_state rt)))
discarded (raise e, rt) = (raise e, persist_snapshot (set_state desynced rt))

-- `_discard_runtime_state_after_failure`
unfoldable pub discard_state : Action (Unit {0})
unfolding write_frame discarded
discard_state rt = discarded (write_frame cmd_reset [] rt)

-- `_validate_backend_attachments_for_devices` for one device of the exported model. A device is attached to
-- one backend at most, so that the check for a second one is left out.
abbrev attachable_spec : Option DeviceSpec → Result (Unit {0})
attachable_spec none = raise runtime_error
attachable_spec (some s) = elim s.backend [
  | template_backend t ↦ raise runtime_error
  | controller_backend worker ↦ elim worker [ none ↦ ok tt | some w ↦ raise runtime_error ]
]

unfoldable pub find_spec : Text → List DeviceSpec → Option DeviceSpec
find_spec id [] = none
find_spec id (s ∷ ss) = if bytes_eq s.id id then some s else find_spec id ss

unfoldable pub validate_ids : List DeviceSpec → List Text → Result (Unit {0})
unfolding find_spec
validate_ids specs [] = ok tt
validate_ids specs (id ∷ ids) = attachable_spec (find_spec id specs) >> validate_ids specs ids

unfoldable pub validate_attachments : List DeviceSpec → List (Text × List Text) → Result (Unit {0})
unfolding validate_ids
validate_attachments specs [] = ok tt
validate_attachments specs ((backend_id, ids) ∷ rest) =
    validate_ids specs ids >> validate_attachments specs rest

-- a roll-back, or a failure of it, which leaves the daemon desynced
abbrev pub give_up : Runtime → Result (Unit {0}) × Runtime
give_up rt = (raise runtime_error, persist_snapshot (set_state desynced rt))

abbrev pub after_restore : Error → Result (Unit {0}) × Runtime → Result (Unit {0}) × Runtime
after_restore error (ok _, rt) = (raise error, rt)
after_restore error (raise _, rt) = give_up rt

unfoldable pub restore_previous : Error → ℕ → Snapshot → Action (Unit {0})
unfolding validate_attachments clear_state apply_locked
restore_previous error generation snap rt =
    elim (validate_attachments snap.model.devices snap.attachments) [
      | raise _ ↦ give_up rt
      | ok _ ↦
          after_restore error (apply_locked snap.model generation snap.attachments (clear_state rt))
    ]

-- the `except` block of `apply_model`
abbrev pub after_discard :
    Error → ℕ → Option Snapshot → Result (Unit {0}) × Runtime → Result (Unit {0}) × Runtime
after_discard error generation previous (raise _, rt) = give_up rt
after_discard error generation none (ok _, rt) = (raise error, rt)
after_discard error generation (some snap) (ok _, rt) = restore_previous error generation snap rt

abbrev pub after_try :
    ℕ → Option Snapshot → Result (Unit {0}) × Runtime → Result (Unit {0}) × Runtime
after_try generation previous (ok _, rt) = (ok tt, rt)
after_try generation previous (raise error, rt) =
    after_discard error generation previous (discard_state rt)

-- `apply_model`
unfoldable pub apply_model : Model → Action (Unit {0})
unfolding assert_mutation_allowed begin_apply try_apply discard_state restore_previous
    persist_snapshot
apply_model m = guarded (λ rt.
    let (previous, rt') = begin_apply rt in
    after_try rt.generation previous (try_apply m (rt.generation + 1) rt'))
