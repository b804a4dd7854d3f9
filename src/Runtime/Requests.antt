-- ===== src/Runtime/Requests.antt =====
-- src/sensorium/runtime/internal.py, state.py (`_record_trace`) and transport.py (`_finalize_request`):
-- what is written down about a request. The handlers are given the device's object; here they have its
-- id, and look it up when they use it.
use sensorium.Base.{
  ℕ, ◌-◌, Bool, false, List, [], ◌∷◌, ◌++◌, Option, none, some, if◌then◌else◌, ltb, Bytes, Text,
  length, drop, lookup, insert, bytes_eq, ◌==◌, ℤ, pos, int_eq,
}
use sensorium.Base.Result.{ok}
use sensorium.Device.{
  Device, Fault, FaultMode, fault_short_reply, Transport, count, apply_fault_pre, apply_fault_post,
}
use sensorium.Runtime.{Runtime, TraceRecord, Action}
use sensorium.Trace.{enqueue}
use sensorium.Runtime.Outside.{persist_snapshot}

-- `self.devices.get(device_id)`
abbrev pub device_of : Text → Runtime → Option Device
device_of id rt = lookup bytes_eq id rt.devices

abbrev pub device_of_handle : Option Text → Runtime → Option Device
device_of_handle none rt = none
device_of_handle (some id) rt = device_of id rt

-- `_device_by_handle`
abbrev pub device_by_handle : ℕ → Runtime → Option Device
device_by_handle handle rt = device_of_handle (lookup ◌==◌ handle rt.devices_by_handle) rt

-- an assignment to the attributes of a device
unfoldable pub modify_device : Text → (Device → Device) → Runtime → Runtime
modify_device id change rt = elim (lookup bytes_eq id rt.devices) [
  | none ↦ rt
  | some d ↦ record rt { devices = insert bytes_eq id (change d) rt.devices }
]

-- `_record_stats` without a device, and with one
unfoldable pub record_totals : ℤ → ℕ → ℕ → Runtime → Runtime
record_totals status bytes_in bytes_out rt = record rt {
  stats_totals = count status bytes_in bytes_out rt.stats_totals;
}

unfoldable pub record_stats : Text → ℤ → ℕ → ℕ → Runtime → Runtime
unfolding record_totals modify_device
record_stats id status bytes_in bytes_out rt =
    modify_device id (λ d. record d { stats = count status bytes_in bytes_out d.stats })
      (record_totals status bytes_in bytes_out rt)

-- the newest `limit` records
abbrev pub newest {ℓ} : {A : Type ℓ} → ℕ → List A → List A
newest limit rs = if ltb limit (length rs) then drop (length rs - limit) rs else rs

unfoldable pub record_trace : TraceRecord → Runtime → Runtime
record_trace r rt = record rt {
  trace = newest rt.trace_limit (rt.trace ++ r ∷ []);
  trace_writer = enqueue rt.port.record_size rt.trace_writer r;
}

abbrev pub trace_of : Device → Transport → ℤ → Bytes → TraceRecord
trace_of d kind status reply = record {
  transport = kind;
  device_id = some d.id;
  bus_id = some d.bus;
  status = status;
  reply = reply;
}

-- the fault of a device behind `_consume_fault`, which also writes the snapshot where it counted down
unfoldable pub store_fault : Text → Fault → Bool → Runtime → Runtime
store_fault id fault counted rt =
    let changed = modify_device id (λ d. record d { faults = fault }) rt in
    if counted then persist_snapshot changed else changed

abbrev counts_down : Fault → Bool
counts_down f = ltb 0 f.remaining

-- `_apply_fault_pre`
unfoldable pub fault_before : Device → Runtime → Option (ℤ × Bytes) × Runtime
fault_before d rt =
    let (fault, reply) = apply_fault_pre d.faults in
    elim reply [
      | none ↦ (none, rt)
      | some r ↦ (some r, store_fault d.id fault (counts_down d.faults) rt)
    ]

-- `mode == "short-reply"` on a request that went well
abbrev pub shortens : FaultMode → ℤ → Bool
shortens fault_short_reply status = int_eq status (pos 0)
shortens _ status = false

-- `_apply_fault_post`
unfoldable pub fault_behind : Device → ℤ → Bytes → Runtime → (ℤ × Bytes) × Runtime
fault_behind d status reply rt =
    let (fault, status', reply') = apply_fault_post d.faults status reply in
    if shortens d.faults.mode status
    then ((status', reply'), store_fault d.id fault (counts_down d.faults) rt)
    else ((status, reply), rt)

-- statistics and trace of a request of a device
unfoldable pub note_request : Device → Transport → ℕ → ℤ → Bytes → Runtime → Runtime
unfolding record_stats record_trace
note_request d kind bytes_in status reply rt =
    record_trace (trace_of d kind status reply)
      (record_stats d.id status bytes_in (length reply) rt)

-- `_finalize_request`, which every caller gives a device
unfoldable pub finalize_request : Device → Transport → ℕ → ℤ → Bytes → Action (ℤ × Bytes)
unfolding fault_behind note_request
finalize_request d kind bytes_in status reply rt =
    let (answer, rt') = fault_behind d status reply rt in
    (ok answer, note_request d kind bytes_in answer.0 answer.1 rt')

-- `_reject_spi_request`, `_reject_uart_request` and the same lines of the I2C handler
unfoldable pub reject_request : Option Device → Transport → ℕ → ℤ → Action (ℤ × Bytes)
unfolding note_request record_totals record_trace
reject_request (some d) kind bytes_in status rt =
    (ok (status, []), note_request d kind bytes_in status [] rt)
reject_request none kind bytes_in status rt =
    let r : TraceRecord = record {
      transport = kind;
      device_id = none;
      bus_id = none;
      status = status;
      reply = [];
    } in
    (ok (status, []), record_trace r (record_totals status bytes_in 0 rt))
