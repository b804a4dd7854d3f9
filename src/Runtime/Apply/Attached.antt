-- ===== src/Runtime/Apply/Attached.antt =====
-- src/sensorium/runtime/managed_workers.py and backends.py: what starting workers and attaching backends do to the
-- dictionaries of buses and devices.
use sensorium.Base.{
  ◌+◌, ◌≡◌, refl, ap, ◌∙◌, Bool, true, false, Bool-cases, Option-cases, inl, inr, List, [], ◌∷◌,
  some, Text, lookup, insert, bytes_eq, map_values, insert-lookup, insert-map_values,
  lookup-map_values, lookup-map_values-none,
}
use sensorium.Base.Result.{Result-cases}
use sensorium.Device.{Device, Worker}
use sensorium.Runtime.{
  Runtime, BridgeStats, DaemonState, empty, applying, ready, degraded, desynced,
}
use sensorium.Runtime.Requests.{modify_device}
use sensorium.Runtime.Backends.{attach_backend_locked, validate_attach, set_attached, with_queue}
use sensorium.Runtime.Workers.{
  start_workers, worker_config, refresh_workers_state, set_degraded, record_failure, next_launch,
  launch_worker, after_launch, tried, running, started,
}
use sensorium.Runtime.Inventory.{BusSpec}
use sensorium.Runtime.Inventory.Ends.{EndsIn, EndsIn-then}
use sensorium.Runtime.Apply.{attach_all}
use sensorium.Runtime.Apply.Tables.{
  Placed, device_entry, attach_one, attach_ids, attached_of, Holds,
}

module _ (name : Text) (bs : List (Text × BusSpec)) where
  abbrev Has : List (Text × Placed) → Runtime → Type 0
  Has ds = Holds name bs ds

  modify-Holds :
      (id : Text) (f : Device → Device) (ds : List (Text × Placed)) (rt : Runtime)
      → ((d : Device) → device_entry (f d) ≡ device_entry d)
      → Has ds rt
      → Has ds (modify_device id f rt)
  unfolding modify_device
  modify-Holds id f ds rt same h = elim (Option-cases (lookup bytes_eq id rt.devices)) [
    | inl e ↦ rw (e, modify_device) h
    | inr (d, e) ↦
        rw (e, modify_device)
          (record {
            named = h.named;
            has_buses = h.has_buses;
            has_devices =
                insert-map_values bytes_eq device_entry id (f d) rt.devices
                ∙ ap (λ x. insert bytes_eq id x (map_values device_entry rt.devices)) (same d)
                ∙ insert-lookup bytes_eq id (device_entry d) (map_values device_entry rt.devices)
                    (lookup-map_values bytes_eq device_entry id d rt.devices e)
                ∙ h.has_devices;
          })
  ]

  in_state :
      (s : DaemonState) (ds : List (Text × Placed)) (rt : Runtime)
      → Has ds rt
      → Has ds (record rt { runtime_state = s })
  in_state s ds rt h = record {
    named = h.named;
    has_buses = h.has_buses;
    has_devices = h.has_devices;
  }

  refresh-Holds :
      (ds : List (Text × Placed)) (rt : Runtime) (s : DaemonState)
      → rt.runtime_state ≡ s
      → Has ds rt
      → Has ds (refresh_workers_state rt)
  unfolding refresh_workers_state
  refresh-Holds ds rt desynced e h = rw (e, refresh_workers_state) h
  refresh-Holds ds rt empty e h = rw (e, refresh_workers_state) (in_state _ ds rt h)
  refresh-Holds ds rt applying e h = rw (e, refresh_workers_state) (in_state _ ds rt h)
  refresh-Holds ds rt ready e h = rw (e, refresh_workers_state) (in_state _ ds rt h)
  refresh-Holds ds rt degraded e h = rw (e, refresh_workers_state) (in_state _ ds rt h)

  set_degraded-Holds :
      (id : Text) (flag : Bool) (ds : List (Text × Placed)) (rt : Runtime)
      → Has ds rt
      → Has ds (set_degraded id flag rt)
  unfolding set_degraded
  set_degraded-Holds id flag ds rt h =
      refresh-Holds ds (modify_device id (λ d. record d { degraded = flag }) rt) _ refl
        (modify-Holds id (λ d. record d { degraded = flag }) ds rt (λ d. refl) h)

  launched-Holds :
      (id : Text) (w : Worker) (ds : List (Text × Placed)) (rt : Runtime)
      → Has ds rt
      → Has ds (after_launch id (launch_worker id w 0 rt))
  unfolding launch_worker record_failure
  launched-Holds id w ds rt h =
      let try = (tried id rt).1 in
      let stats : BridgeStats = record (rt.bridge_stats) {
        worker_restarts = rt.bridge_stats.worker_restarts + 1;
      } in
      let ran : Has ds (running id (started w 0) try) = record {
        named = h.named;
        has_buses = h.has_buses;
        has_devices = h.has_devices;
      } in
      let not_run : Has ds (record try { bridge_stats = stats }) = record {
        named = h.named;
        has_buses = h.has_buses;
        has_devices = h.has_devices;
      } in
      elim (Bool-cases (next_launch rt.port.launches).0) [
        | inl runs ↦
            rw (runs, launch_worker)
              (set_degraded-Holds id false ds (running id (started w 0) try) ran)
        | inr refused ↦
            rw (refused, launch_worker)
              (set_degraded-Holds id true ds (record try { bridge_stats = stats }) not_run)
      ]

  pub start_workers-Holds :
      (devices : List (Text × Device)) (ds : List (Text × Placed)) (rt : Runtime)
      → Has ds rt
      → Has ds (start_workers devices rt)
  unfolding start_workers
  start_workers-Holds [] ds rt h = h
  start_workers-Holds ((id, d) ∷ rest) ds rt h = elim (Option-cases (worker_config d.backend)) [
    | inl e ↦ rw (e, start_workers) (start_workers-Holds rest ds rt h)
    | inr (w, e) ↦
        rw (e, start_workers)
          (start_workers-Holds rest ds (after_launch id (launch_worker id w 0 rt))
            (launched-Holds id w ds rt h))
  ]

  attach_one-Holds :
      (backend_id id : Text) (ds : List (Text × Placed)) (rt : Runtime)
      → Has ds rt
      → Has
          (attach_one backend_id id ds)
          (modify_device id (λ d. record d { attached_backend = some backend_id }) rt)
  unfolding modify_device
  attach_one-Holds backend_id id ds rt h = elim (Option-cases (lookup bytes_eq id rt.devices)) [
    | inl e ↦
        let missing = lookup-map_values-none bytes_eq device_entry id rt.devices e in
        rw (e, modify_device)
          (record {
            named = h.named;
            has_buses = h.has_buses;
            has_devices = rw (← h.has_devices, missing, attach_one) h.has_devices;
          })
    | inr (d, e) ↦
        let found = lookup-map_values bytes_eq device_entry id d rt.devices e in
        rw (e, modify_device)
          (record {
            named = h.named;
            has_buses = h.has_buses;
            has_devices =
                insert-map_values bytes_eq device_entry id
                  (record d { attached_backend = some backend_id }) rt.devices
                ∙ rw (← h.has_devices, found, attach_one)
                    (ap
                      (insert bytes_eq id
                        (device_entry (record d { attached_backend = some backend_id })))
                      h.has_devices);
          })
  ]

  pub set_attached-Holds :
      (backend_id : Text) (ids : List Text) (ds : List (Text × Placed)) (rt : Runtime)
      → Has ds rt
      → Has (attach_ids backend_id ids ds) (set_attached (some backend_id) ids rt)
  unfolding set_attached attach_ids
  set_attached-Holds backend_id [] ds rt h = h
  set_attached-Holds backend_id (id ∷ ids) ds rt h =
      set_attached-Holds backend_id ids (attach_one backend_id id ds) _
        (attach_one-Holds backend_id id ds rt h)

  pub attach_backend_locked-Holds :
      (backend_id : Text) (ids : List Text) (ds : List (Text × Placed)) (rt : Runtime)
      → Has ds rt
      → EndsIn (Has (attach_ids backend_id ids ds)) (attach_backend_locked backend_id ids rt)
  unfolding attach_backend_locked with_queue
  attach_backend_locked-Holds backend_id ids ds rt h =
      elim (Result-cases (validate_attach ids (with_queue backend_id rt))) [
        | inl (a, e) ↦
            rw (e, attach_backend_locked)
              (record {
                here = set_attached-Holds backend_id ids ds (with_queue backend_id rt) (record {
                  named = h.named;
                  has_buses = h.has_buses;
                  has_devices = h.has_devices;
                });
              })
        | inr (err, e) ↦ rw (e, attach_backend_locked) (record { here = tt })
      ]

  pub attach_all-Holds :
      (attachments : List (Text × List Text)) (ds : List (Text × Placed)) (rt : Runtime)
      → Has ds rt
      → EndsIn (Has (attached_of attachments ds)) (attach_all attachments rt)
  unfolding attach_all attached_of attach_ids
  attach_all-Holds [] ds rt h = record { here = h }
  attach_all-Holds ((backend_id, []) ∷ rest) ds rt h = attach_all-Holds rest ds rt h
  attach_all-Holds ((backend_id, id ∷ ids) ∷ rest) ds rt h =
      EndsIn-then (Has (attach_ids backend_id (id ∷ ids) ds))
        (Has (attached_of rest (attach_ids backend_id (id ∷ ids) ds)))
        (attach_backend_locked backend_id (id ∷ ids) rt) _
        (attach_backend_locked-Holds backend_id (id ∷ ids) ds rt h)
        (λ _ rt' h'. attach_all-Holds rest (attach_ids backend_id (id ∷ ids) ds) rt' h')
