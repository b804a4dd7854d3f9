-- ===== src/Runtime/Workers.antt =====
-- src/sensorium/runtime/managed_workers.py: starting and stopping the worker processes, and the degraded
-- state. Whether a process can be started is in `port.launches`.
pub mod Budget
use sensorium.Base.{
  ℕ, ◌+◌, Bool, true, false, not, ◌||◌, List, [], ◌∷◌, Option, none, some, if◌then◌else◌, Text, leb,
  ◌&&◌, neg, lookup, insert, remove, bytes_eq,
}
use sensorium.Base.Result.{Result, ok, raise, os_error}
use sensorium.Device.{Device, Backend, template_backend, controller_backend, Worker, epipe}
use sensorium.Runtime.{
  Runtime, DaemonState, empty, applying, ready, degraded, desynced, BridgeStats, Port, WorkerState,
  Action,
}
use sensorium.Runtime.Backends.{fail_managed_pending}
use sensorium.Runtime.Requests.{device_of, modify_device}

-- `_managed_worker_config`
abbrev pub worker_config : Backend → Option Worker
worker_config (template_backend t) = none
worker_config (controller_backend w) = w

unfoldable pub any_degraded : List (Text × Device) → Bool
any_degraded [] = false
any_degraded ((id, d) ∷ rest) = d.degraded || any_degraded rest

abbrev recovered : DaemonState → DaemonState
recovered s = elim s [ degraded ↦ ready | other ↦ other ]

-- `_refresh_managed_worker_runtime_state_locked`; only this function sets `degraded`, with its own reason
unfoldable pub refresh_workers_state : Runtime → Runtime
unfolding any_degraded
refresh_workers_state rt =
    let worse = if any_degraded rt.devices then degraded else recovered rt.runtime_state in
    elim rt.runtime_state [ desynced ↦ rt | _ ↦ record rt { runtime_state = worse } ]

unfoldable pub set_degraded : Text → Bool → Runtime → Runtime
unfolding modify_device refresh_workers_state
set_degraded id flag rt =
    refresh_workers_state (modify_device id (λ d. record d { degraded = flag }) rt)

-- `_record_managed_worker_failure_locked`
unfoldable pub record_failure : Text → Runtime → Runtime
unfolding set_degraded
record_failure id rt =
    let stats : BridgeStats = record (rt.bridge_stats) {
      worker_restarts = rt.bridge_stats.worker_restarts + 1;
    } in
    set_degraded id true (record rt { bridge_stats = stats })

-- `_stop_managed_worker_locked`, as far as the daemon's own state goes
abbrev pub stop_worker : Text → Runtime → Runtime
stop_worker id rt = record rt { managed_workers = remove bytes_eq id rt.managed_workers }

abbrev pub next_launch : List Bool → Bool × List Bool
next_launch [] = (true, [])
next_launch (o ∷ os) = (o, os)

abbrev pub started : Worker → ℕ → WorkerState
started w restart_count = record {
  restart_limit = w.restart_limit;
  restart_backoff_ms = w.restart_backoff_ms;
  restart_count = restart_count;
  stop_requested = false;
  failed = false;
}

-- the old process is stopped, and the start of a new one is tried
abbrev pub tried : Text → Runtime → Bool × Runtime
tried id rt =
    let (done, rest) = next_launch rt.port.launches in
    let p : Port = record (rt.port) { launches = rest } in
    (done, record (stop_worker id rt) { port = p })

abbrev pub running : Text → WorkerState → Runtime → Runtime
running id state rt = record rt { managed_workers = insert bytes_eq id state rt.managed_workers }

-- `_launch_managed_worker_locked` of a device with a worker: an exception where the process cannot be started
unfoldable pub launch_worker : Text → Worker → ℕ → Action (Unit {0})
unfolding set_degraded
launch_worker id w restart_count rt =
    let (done, rt') = tried id rt in
    if done
    then (ok tt, set_degraded id false (running id (started w restart_count) rt'))
    else (raise os_error, rt')

abbrev pub after_launch : Text → Result (Unit {0}) × Runtime → Runtime
after_launch id (ok _, rt) = rt
after_launch id (raise e, rt) = record_failure id rt

-- `_start_managed_workers_locked`, in the order of the dictionary: the source sorts the ids
unfoldable pub start_workers : List (Text × Device) → Runtime → Runtime
unfolding launch_worker record_failure
start_workers [] rt = rt
start_workers ((id, d) ∷ rest) rt = start_workers rest (elim (worker_config d.backend) [
  | none ↦ rt
  | some w ↦ after_launch id (launch_worker id w 0 rt)
])

-- `_launch_managed_worker_locked`; `left` where the device has no worker
pub data Exit : Type 0 where
  replaced stopped failed left relaunched launch_failed : Exit

abbrev pub launch_of : Result (Unit {0}) × Runtime → Exit × Runtime
launch_of (ok _, rt) = (relaunched, rt)
launch_of (raise e, rt) = (launch_failed, rt)

abbrev pub config_of : Option Device → Option Worker
config_of none = none
config_of (some d) = worker_config d.backend

abbrev pub launch_with : Option Worker → Text → ℕ → Runtime → Exit × Runtime
launch_with none id restart_count rt = (left, rt)
launch_with (some w) id restart_count rt = launch_of (launch_worker id w restart_count rt)

-- whether the daemon is stopping, at each of the three places where the monitor looks
pub record Stopping : Type 0 where
  pub at_exit : Bool
  pub after_failure : Bool
  pub after_backoff : Bool

abbrev pub may_restart : Option Worker → ℕ → ℕ → Bool → Bool
may_restart none restart_count restart_limit stopping = false
may_restart (some w) restart_count restart_limit stopping =
    leb restart_count restart_limit && not stopping

-- the worker that has exited is out of the dictionary, and its requests are answered
unfoldable pub worker_failed : Text → Runtime → Runtime
unfolding record_failure fail_managed_pending
worker_failed id rt = fail_managed_pending id (neg epipe) (record_failure id (stop_worker id rt))

-- behind the backoff
abbrev pub restart_worker : Text → ℕ → Bool → Runtime → Exit × Runtime
restart_worker id restart_count true rt = (left, rt)
restart_worker id restart_count false rt =
    launch_with (config_of (device_of id rt)) id restart_count rt

-- `_managed_worker_monitor_loop` behind the exit of the process, for the worker that `managed_workers` names;
-- `meanwhile` is what other threads do to the state during the backoff
unfoldable pub worker_exited : Text → Stopping → (Runtime → Runtime) → Runtime → Exit × Runtime
unfolding launch_worker set_degraded worker_failed refresh_workers_state
worker_exited id stopping meanwhile rt = elim (lookup bytes_eq id rt.managed_workers) [
  | none ↦ (replaced, rt)
  | some state ↦
      let rt1 = worker_failed id rt in
      if state.stop_requested || stopping.at_exit
      then (stopped, set_degraded id false (stop_worker id rt))
      else if may_restart (config_of (device_of id rt1)) (state.restart_count + 1)
          state.restart_limit stopping.after_failure
      then restart_worker id (state.restart_count + 1) stopping.after_backoff (meanwhile rt1)
      else (failed, refresh_workers_state rt1)
]
