-- ===== src/Runtime/Apply/Kept.antt =====
-- src/sensorium/runtime/inventory.py and state.py: what a reset, a new model and a resync keep, where it is kept over
-- a few changes of the state.
pub mod Workers
pub mod Runs
use sensorium.Base.{
  ℕ, ◌+◌, ◌≡◌, refl, ◌∙◌, Bool, true, false, not, ◌&&◌, ◌==◌, length, Bool-cases, Option-cases, inl,
  inr, List, [], ◌∷◌, Option, none, some, Text, Bytes, lookup, insert, bytes_eq, if-both,
  if◌then◌else◌,
}
use sensorium.Base.Result.{Error, Result, ok, raise, Result-cases, ◌>>=◌}
use sensorium.Bridge.Protocol.{cmd_reset, cmd_bus_add, cmd_device_add}
use sensorium.Trace.{Writer}
use sensorium.Device.{Device, Stats, Worker, Transport, i2c, spi, uart, fresh_stats}
use sensorium.Device.Cases.{State-cases, no_state, of_bank, of_spi, of_uart}
use sensorium.Template.Uart.{modem_defaults}
use sensorium.Runtime.{
  Runtime, Bus, Pending, TraceRecord, BridgeStats, DaemonState, empty, applying, ready, degraded,
  desynced, Action,
}
use sensorium.Runtime.Outside.{
  write_frame, write_snapshot, refresh_bridge_metrics, persist_snapshot,
}
use sensorium.Runtime.Requests.{modify_device}
use sensorium.Runtime.Backends.{
  assert_mutation_allowed, guarded, attach_backend_locked, validate_attach, set_attached,
  with_queue,
}
use sensorium.Runtime.Workers.{
  start_workers, worker_config, refresh_workers_state, set_degraded, record_failure, next_launch,
  launch_worker, after_launch, tried, running, started,
}
use sensorium.Runtime.Inventory.{
  ◌and_then◌, BusSpec, DeviceSpec, Model, add_bus, pack_bus, add_device, device_command,
  send_device, or_key_error, place_of, pack_device, sync_if_uart, sync_uart_defaults,
}
use sensorium.Runtime.Apply.{
  clear_state, set_state, no_snapshot_error, reset_runtime, add_buses, add_devices, attach_all,
  apply_locked, now_ready, set_ready, Snapshot, begin_apply, has_model, take_snapshot, try_apply,
  discarded, discard_state, validate_attachments, give_up, after_restore, restore_previous,
  after_discard, after_try, apply_model,
}

-- the parts of the state that the requests count and wait on
pub record Parts : Type 0 where
  pub devices : List (Text × Device)
  pub pending : List (ℕ × Pending)
  pub released : List (ℕ × Pending)
  pub totals : Stats
  pub trace : List TraceRecord
  pub trace_limit : ℕ
  pub trace_writer : Writer TraceRecord

abbrev pub parts : Runtime → Parts
parts rt = record {
  devices = rt.devices;
  pending = rt.pending_controller;
  released = rt.released;
  totals = rt.stats_totals;
  trace = rt.trace;
  trace_limit = rt.trace_limit;
  trace_writer = rt.trace_writer;
}

pub parts-refresh : (rt : Runtime) → parts (refresh_bridge_metrics rt) ≡ parts rt
unfolding refresh_bridge_metrics
parts-refresh rt = elim (Option-cases rt.port.metrics) [
  | inl e ↦ rw (e, refresh_bridge_metrics) refl
  | inr (m, e) ↦ rw (e, refresh_bridge_metrics) refl
]

pub parts-persist : (rt : Runtime) → parts (persist_snapshot rt) ≡ parts rt
unfolding persist_snapshot write_snapshot
parts-persist rt =
    if-both (λ x. parts x ≡ parts rt) (not rt.snapshot_path) _ _ (λ _. refl)
      (λ _.
        if-both (λ x. parts x ≡ parts rt) (length rt.buses == 0 && length rt.devices == 0) _ _
          (λ _. refl) (λ _. parts-refresh rt))

-- a predicate that is kept by what is done to those parts
pub record IsKept (P : Runtime → Type 0) : Type 0 where
  pub same : (rt rt' : Runtime) → parts rt' ≡ parts rt → P rt → P rt'
  pub changed :
      (id : Text) (f : Device → Device) (rt : Runtime)
      → ((d : Device) → (f d).stats ≡ d.stats)
      → P rt
      → P (modify_device id f rt)
  pub entered :
      (id : Text) (d : Device) (rt : Runtime)
      → d.stats ≡ fresh_stats
      → P rt
      → P (record rt { devices = insert bytes_eq id d rt.devices })
  pub cleared : (rt : Runtime) → P rt → P (clear_state rt)

-- the device of a command has no counts
record IsFresh (r : Result (Bytes × Device)) : Type 0 where
  fresh : elim r as (λ _. Type 0) [ ok (payload, d) ↦ d.stats ≡ fresh_stats | raise e ↦ Unit {0} ]

device_command-IsFresh :
    (s : DeviceSpec) (handle : ℕ) (bus : Option Bus) → IsFresh (device_command s handle bus)
device_command-IsFresh s handle bus = elim (Result-cases (or_key_error bus)) [
  | inr (err, e) ↦ rw (e, ◌>>=◌) (record { fresh = tt })
  | inl (b, e) ↦ elim (Result-cases (place_of s)) [
    | inr (err, e') ↦ rw (e, e', ◌>>=◌) (record { fresh = tt })
    | inl (place, e') ↦ elim (Result-cases (pack_device handle b.handle s place.0 place.1)) [
      | inr (err, e'') ↦ rw (e, e', e'', ◌>>=◌) (record { fresh = tt })
      | inl (payload, e'') ↦ rw (e, e', e'', ◌>>=◌) (record { fresh = refl })
    ]
  ]
]

module _ (P : Runtime → Type 0) (k : IsKept P) where
  pub kept_then :
      {A : Type 0} (x : Result A × Runtime) (f : A → Action (Unit {0}))
      → P x.1
      → ((a : A) (rt : Runtime) → P rt → P (f a rt).1)
      → P (x and_then f).1
  kept_then (ok a, rt) f h g = g a rt h
  kept_then (raise e, rt) f h g = h

  pub kept_persist : (rt : Runtime) → P rt → P (persist_snapshot rt)
  kept_persist rt h = k.same rt (persist_snapshot rt) (parts-persist rt) h

  pub kept_write :
      (msg_type : ℕ) (payload : Bytes) (rt : Runtime) → P rt → P (write_frame msg_type payload rt).1
  unfolding write_frame
  kept_write msg_type payload rt h = k.same rt (write_frame msg_type payload rt).1 refl h

  kept_bus : (b : BusSpec) (rt : Runtime) → P rt → P (add_bus b rt).1
  unfolding add_bus write_frame
  kept_bus b rt h = elim (Result-cases (pack_bus rt.next_bus_handle b)) [
    | inr (err, e) ↦ rw (e, add_bus) (k.same rt _ refl h)
    | inl (payload, e) ↦
        rw (e, add_bus)
          (kept_then
            (write_frame cmd_bus_add payload
              (record rt { next_bus_handle = rt.next_bus_handle + 1 }))
            _ (k.same rt _ refl h) (λ _ rt' h'. k.same rt' _ refl h'))
  ]

  pub kept_buses : (bs : List BusSpec) (rt : Runtime) → P rt → P (add_buses bs rt).1
  unfolding add_buses
  kept_buses [] rt h = h
  kept_buses (b ∷ bs) rt h =
      kept_then (add_bus b rt) _ (kept_bus b rt h) (λ _ rt' h'. kept_buses bs rt' h')

  kept_sync : (d : Device) (rt : Runtime) → P rt → P (sync_uart_defaults d rt).1
  unfolding sync_uart_defaults
  kept_sync d rt h = elim (State-cases d.state) [
    | no_state e ↦ rw (e, sync_uart_defaults) h
    | of_bank b e ↦ rw (e, sync_uart_defaults) h
    | of_spi t e ↦ rw (e, sync_uart_defaults) h
    | of_uart t e ↦ elim (Bool-cases ((modem_defaults t).0 == 0)) [
      | inl zero ↦ rw (e, zero, sync_uart_defaults) h
      | inr some_bits ↦ rw (e, some_bits, sync_uart_defaults) (kept_write _ _ rt h)
    ]
  ]

  kept_sync_if : (t : Transport) (d : Device) (rt : Runtime) → P rt → P (sync_if_uart t d rt).1
  kept_sync_if uart d rt h = kept_sync d rt h
  kept_sync_if i2c d rt h = h
  kept_sync_if spi d rt h = h

  kept_send :
      (s : DeviceSpec) (handle : ℕ) (r : Result (Bytes × Device)) (rt : Runtime)
      → IsFresh r
      → P rt
      → P (send_device s handle r rt).1
  kept_send s handle (raise e) rt f h = h
  kept_send s handle (ok (payload, d)) rt f h =
      kept_then (write_frame cmd_device_add payload rt) _ (kept_write cmd_device_add payload rt h)
        (λ _ rt' h'. kept_sync_if s.transport d _ (
          k.same (record rt' { devices = insert bytes_eq s.id d rt'.devices }) _ refl
            (k.entered s.id d rt' f.fresh h')))

  pub kept_devices : (ds : List DeviceSpec) (rt : Runtime) → P rt → P (add_devices ds rt).1
  unfolding add_devices add_device
  kept_devices [] rt h = h
  kept_devices (s ∷ ds) rt h =
      kept_then (add_device s rt) _
        (kept_send s rt.next_device_handle
          (device_command s rt.next_device_handle (lookup bytes_eq s.bus rt.buses))
          (record rt { next_device_handle = rt.next_device_handle + 1 })
          (device_command-IsFresh s rt.next_device_handle (lookup bytes_eq s.bus rt.buses))
          (k.same rt _ refl h))
        (λ _ rt' h'. kept_devices ds rt' h')
