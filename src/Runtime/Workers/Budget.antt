-- ===== src/Runtime/Workers/Budget.antt =====
-- src/sensorium/runtime/managed_workers.py: how often a worker is started again.
use sensorium.Base.{
  ℕ, ◌+◌, ◌≤◌, ◌≡◌, refl, ap, ◌∙◌, arith, inl, inr, Bool, true, false, Bool-cases, Option-cases,
  Option, none, some, Text, lookup, bytes_eq, bytes_eq_refl, lookup-insert_self, ◌||◌,
}
use sensorium.Device.{Device, Worker}
use sensorium.Runtime.{
  Runtime, DaemonState, empty, applying, ready, degraded, desynced, WorkerState,
}
use sensorium.Runtime.Requests.{device_of, modify_device}
use sensorium.Runtime.Workers.{
  relaunched, started, next_launch, tried, running, launch_of, launch_worker, launch_with,
  config_of, Stopping, may_restart, worker_failed, restart_worker, worker_exited, set_degraded,
  refresh_workers_state,
}

refresh-managed_workers :
    (rt : Runtime) (s : DaemonState)
    → rt.runtime_state ≡ s
    → (refresh_workers_state rt).managed_workers ≡ rt.managed_workers
unfolding refresh_workers_state
refresh-managed_workers rt desynced h = rw (h, refresh_workers_state) refl
refresh-managed_workers rt empty h = rw (h, refresh_workers_state) refl
refresh-managed_workers rt applying h = rw (h, refresh_workers_state) refl
refresh-managed_workers rt ready h = rw (h, refresh_workers_state) refl
refresh-managed_workers rt degraded h = rw (h, refresh_workers_state) refl

modify-managed_workers :
    (id : Text) (change : Device → Device) (rt : Runtime)
    → (modify_device id change rt).managed_workers ≡ rt.managed_workers
unfolding modify_device
modify-managed_workers id change rt = elim (Option-cases (device_of id rt)) [
  | inl e ↦ rw (e, modify_device) refl
  | inr (d, e) ↦ rw (e, modify_device) refl
]

set_degraded-managed_workers :
    (id : Text) (flag : Bool) (rt : Runtime)
    → (set_degraded id flag rt).managed_workers ≡ rt.managed_workers
unfolding set_degraded
set_degraded-managed_workers id flag rt =
    let rt' = modify_device id (λ d. record d { degraded = flag }) rt in
    refresh-managed_workers rt' rt'.runtime_state refl
    ∙ modify-managed_workers id (λ d. record d { degraded = flag }) rt

-- what a launch that succeeds leaves in `managed_workers`
launch_worker_lem :
    (id : Text) (w : Worker) (restart_count : ℕ) (rt : Runtime)
    → (launch_of (launch_worker id w restart_count rt)).0 ≡ relaunched
    → lookup bytes_eq id (launch_of (launch_worker id w restart_count rt)).1.managed_workers
      ≡ some (started w restart_count)
unfolding launch_worker
launch_worker_lem id w restart_count rt = elim (Bool-cases (next_launch rt.port.launches).0) [
  | inl done ↦
      rw (done, launch_worker)
        (λ _.
          let rt' = running id (started w restart_count) (tried id rt).1 in
          ap (lookup bytes_eq id) (set_degraded-managed_workers id false rt')
          ∙ lookup-insert_self bytes_eq id (started w restart_count) (tried id rt).1.managed_workers
              (bytes_eq_refl id))
  | inr failing ↦ rw (failing, launch_worker) (λ h. absurd (ground arith))
]

-- behind the backoff, the device's own worker is what is started
restart_worker_lem :
    (id : Text) (restart_count : ℕ) (stopping : Bool) (rt : Runtime)
    → (restart_worker id restart_count stopping rt).0 ≡ relaunched
    → (w : Worker) × (config_of (device_of id rt) ≡ some w)
      × (lookup bytes_eq id (restart_worker id restart_count stopping rt).1.managed_workers
          ≡ some (started w restart_count))
restart_worker_lem id restart_count true rt = λ h. absurd (ground arith)
restart_worker_lem id restart_count false rt = elim (Option-cases (config_of (device_of id rt))) [
  | inl e ↦ rw (e, launch_with) (λ h. absurd (ground arith))
  | inr (w, e) ↦ rw (e, launch_with) (λ h. (w, refl, launch_worker_lem id w restart_count rt h))
]

may_restart_within :
    (w : Option Worker) (n limit : ℕ) (stopping : Bool)
    → may_restart w n limit stopping ≡ true
    → n ≤ limit
may_restart_within none n limit stopping h = absurd (ground arith)
may_restart_within (some w) n limit stopping h = ground arith

-- When the monitor of a worker starts it again, the restart is within the limit that the worker was
-- started with, and `managed_workers` has, for the device, a fresh state of the worker that the device is
-- configured with by then, with one restart more.
pub worker_exited_lem :
    (id : Text) (stopping : Stopping) (meanwhile : Runtime → Runtime) (rt : Runtime)
    (state : WorkerState)
    → lookup bytes_eq id rt.managed_workers ≡ some state
    → (worker_exited id stopping meanwhile rt).0 ≡ relaunched
    → (state.restart_count + 1 ≤ state.restart_limit)
      × ((w : Worker) × (config_of (device_of id (meanwhile (worker_failed id rt))) ≡ some w)
          × (lookup bytes_eq id (worker_exited id stopping meanwhile rt).1.managed_workers
              ≡ some (started w (state.restart_count + 1))))
unfolding worker_exited
worker_exited_lem id stopping meanwhile rt state found =
    elim (Bool-cases (state.stop_requested || stopping.at_exit)) [
      | inl ends ↦ rw (found, ends, worker_exited) (λ h. absurd (ground arith))
      | inr goes ↦
          elim (Bool-cases (
            may_restart (config_of (device_of id (worker_failed id rt))) (state.restart_count + 1)
              state.restart_limit stopping.after_failure)) [
                | inl may ↦
                    rw (found, goes, may, worker_exited)
                      (λ h. (
                        may_restart_within _ _ _ _ may,
                        restart_worker_lem id (state.restart_count + 1) stopping.after_backoff
                            (meanwhile (worker_failed id rt)) h,
                      ))
                | inr over ↦ rw (found, goes, over, worker_exited) (λ h. absurd (ground arith))
              ]
    ]
