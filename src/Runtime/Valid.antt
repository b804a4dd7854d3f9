-- ===== src/Runtime/Valid.antt =====
-- src/sensorium/runtime: the counters, the trace and the trace queue of the daemon, over what it writes
-- down about a request.
pub mod Calls
pub mod Handlers
pub mod Uart
pub mod Worker
use sensorium.Base.{
  ℕ, ◌+◌, ◌-◌, ◌≤◌, ◌<◌, ◌≡◌, refl, ap, arith, Bool, true, false, Bool-cases, Option-cases, inl,
  inr, List, [], ◌∷◌, ◌++◌, Option, none, some, if◌then◌else◌, ltb, Bytes, Text, length, drop,
  length-append, length-drop, lookup, insert, bytes_eq, AllValues, lookup-AllValues,
  insert-AllValues, ℤ,
}
use sensorium.Base.Result.{Result, ok, raise}
use sensorium.Trace.{Writer, enqueue}
use sensorium.Trace.Bounds as Bounds
use sensorium.Device.{Device, Stats, Fault, Transport, count, apply_fault_pre, apply_fault_post}
use sensorium.Device.Counts.{IsCounted, count-IsCounted}
use sensorium.Bridge.{Entry}
use sensorium.Runtime.{Runtime, TraceRecord}
use sensorium.Runtime.Outside.{
  write_entry, refresh_bridge_metrics, write_snapshot, persist_snapshot,
}
use sensorium.Runtime.Requests.{
  modify_device, record_totals, record_stats, newest, record_trace, store_fault, fault_before,
  fault_behind, note_request, finalize_request, reject_request, shortens,
}

abbrev pub DeviceCounted : Device → Type 0
DeviceCounted d = IsCounted d.stats

-- the counters of the totals and of every device, the length of the trace, and the trace queue
pub record Sound (totals : Stats) (devices : List (Text × Device)) (trace : List TraceRecord)
    (limit : ℕ) (writer : Writer TraceRecord) : Type 0 where
  pub totals_counted : IsCounted totals
  pub devices_counted : AllValues DeviceCounted devices
  pub trace_within : length trace ≤ limit
  pub writer_valid : Bounds.IsValid writer

pub record IsValid (rt : Runtime) : Type 0 where
  pub sound : Sound rt.stats_totals rt.devices rt.trace rt.trace_limit rt.trace_writer

pub write_entry-IsValid : (e : Entry) (rt : Runtime) → IsValid rt → IsValid (write_entry e rt).1
unfolding write_entry
write_entry-IsValid e rt v = record { sound = v.sound }

pub refresh_bridge_metrics-IsValid :
    (rt : Runtime) → IsValid rt → IsValid (refresh_bridge_metrics rt)
unfolding refresh_bridge_metrics
refresh_bridge_metrics-IsValid rt v = elim (Option-cases rt.port.metrics) [
  | inl e ↦ rw (e, refresh_bridge_metrics) v
  | inr (m, e) ↦ rw (e, refresh_bridge_metrics) (record { sound = v.sound })
]

-- both branches of a conditional
pub if-IsValid : (b : Bool) (x y : Runtime) → IsValid x → IsValid y → IsValid (if b then x else y)
if-IsValid true x y vx vy = vx
if-IsValid false x y vx vy = vy

write_snapshot-IsValid :
    (saved : Bool) (rt : Runtime) → IsValid rt → IsValid (write_snapshot saved rt)
unfolding write_snapshot
write_snapshot-IsValid saved rt v = record { sound = v.sound }

pub persist_snapshot-IsValid : (rt : Runtime) → IsValid rt → IsValid (persist_snapshot rt)
unfolding persist_snapshot
persist_snapshot-IsValid rt v = if-IsValid _ _ _ v (
    if-IsValid _ _ _ (write_snapshot-IsValid false rt v) (
      write_snapshot-IsValid true (refresh_bridge_metrics rt)
        (refresh_bridge_metrics-IsValid rt v)))

pub modify_device-IsValid :
    (id : Text) (change : Device → Device) (rt : Runtime)
    → ((d : Device) → DeviceCounted d → DeviceCounted (change d))
    → IsValid rt
    → IsValid (modify_device id change rt)
unfolding modify_device
modify_device-IsValid id change rt keeps v = elim (Option-cases (lookup bytes_eq id rt.devices)) [
  | inl e ↦ rw (e, modify_device) v
  | inr (d, e) ↦
      let counted =
        lookup-AllValues bytes_eq DeviceCounted id rt.devices d v.sound.devices_counted e in
      let all =
        insert-AllValues bytes_eq DeviceCounted id (change d) rt.devices v.sound.devices_counted
          (keeps d counted) in
      rw (e, modify_device)
        (record {
          sound = record {
            totals_counted = v.sound.totals_counted;
            devices_counted = all;
            trace_within = v.sound.trace_within;
            writer_valid = v.sound.writer_valid;
          };
        })
]

pub record_totals-IsValid :
    (status : ℤ) (i o : ℕ) (rt : Runtime) → IsValid rt → IsValid (record_totals status i o rt)
unfolding record_totals
record_totals-IsValid status i o rt v = record {
  sound = record {
    totals_counted = count-IsCounted status i o rt.stats_totals v.sound.totals_counted;
    devices_counted = v.sound.devices_counted;
    trace_within = v.sound.trace_within;
    writer_valid = v.sound.writer_valid;
  };
}

pub record_stats-IsValid :
    (id : Text) (status : ℤ) (i o : ℕ) (rt : Runtime)
    → IsValid rt
    → IsValid (record_stats id status i o rt)
unfolding record_stats
record_stats-IsValid id status i o rt v =
    modify_device-IsValid id (λ d. record d { stats = count status i o d.stats })
      (record_totals status i o rt) (λ d c. count-IsCounted status i o d.stats c)
      (record_totals-IsValid status i o rt v)

length-newest : {A : Type 0} (limit : ℕ) (rs : List A) → length (newest limit rs) ≤ limit
length-newest limit rs = ground (arith, length-drop (length rs - limit) rs)

pub record_trace-IsValid :
    (r : TraceRecord) (rt : Runtime) → IsValid rt → IsValid (record_trace r rt)
unfolding record_trace
record_trace-IsValid r rt v = record {
  sound = record {
    totals_counted = v.sound.totals_counted;
    devices_counted = v.sound.devices_counted;
    trace_within = length-newest rt.trace_limit (rt.trace ++ r ∷ []);
    writer_valid =
        Bounds.enqueue-IsValid rt.port.record_size rt.trace_writer r v.sound.writer_valid;
  };
}

pub store_fault-IsValid :
    (id : Text) (fault : Fault) (counted : Bool) (rt : Runtime)
    → IsValid rt
    → IsValid (store_fault id fault counted rt)
unfolding store_fault
store_fault-IsValid id fault counted rt v =
    let v' = modify_device-IsValid id (λ d. record d { faults = fault }) rt (λ d c. c) v in
    if-IsValid _ _ _ (persist_snapshot-IsValid _ v') v'

pub fault_before-IsValid : (d : Device) (rt : Runtime) → IsValid rt → IsValid (fault_before d rt).1
unfolding fault_before
fault_before-IsValid d rt v = elim (Option-cases (apply_fault_pre d.faults).1) [
  | inl e ↦ rw (e, fault_before) v
  | inr (r, e) ↦ rw (e, fault_before) (store_fault-IsValid d.id (apply_fault_pre d.faults).0 _ rt v)
]

pub fault_behind-IsValid :
    (d : Device) (status : ℤ) (reply : Bytes) (rt : Runtime)
    → IsValid rt
    → IsValid (fault_behind d status reply rt).1
unfolding fault_behind
fault_behind-IsValid d status reply rt v =
    let fault = (apply_fault_post d.faults status reply).0 in
    elim (Bool-cases (shortens d.faults.mode status)) [
      | inl e ↦ rw (e, fault_behind) (store_fault-IsValid d.id fault _ rt v)
      | inr e ↦ rw (e, fault_behind) v
    ]

pub note_request-IsValid :
    (d : Device) (kind : Transport) (n : ℕ) (status : ℤ) (reply : Bytes) (rt : Runtime)
    → IsValid rt
    → IsValid (note_request d kind n status reply rt)
unfolding note_request
note_request-IsValid d kind n status reply rt v =
    record_trace-IsValid _ _ (record_stats-IsValid d.id status n (length reply) rt v)

pub finalize_request-IsValid :
    (d : Device) (kind : Transport) (n : ℕ) (status : ℤ) (reply : Bytes) (rt : Runtime)
    → IsValid rt
    → IsValid (finalize_request d kind n status reply rt).1
unfolding finalize_request
finalize_request-IsValid d kind n status reply rt v =
    note_request-IsValid d kind n _ _ _ (fault_behind-IsValid d status reply rt v)

pub reject_request-IsValid :
    (d : Option Device) (kind : Transport) (n : ℕ) (status : ℤ) (rt : Runtime)
    → IsValid rt
    → IsValid (reject_request d kind n status rt).1
unfolding reject_request
reject_request-IsValid none kind n status rt v =
    record_trace-IsValid _ _ (record_totals-IsValid status n 0 rt v)
reject_request-IsValid (some d) kind n status rt v = note_request-IsValid d kind n status [] rt v
