-- ===== src/Runtime/Dispatch.antt =====
-- src/sensorium/runtime/bridge.py, `_dispatch_controller`, and managed_workers.py,
-- `_dispatch_managed_controller`: a request that a controller or a worker process answers. The wait is
-- the list of what others call before the request goes on, by a reply or by the deadline.
pub mod Emptying
pub mod Waiting
pub mod Answers
pub mod Leak
use sensorium.Base.{
  ℕ, ◌+◌, Bool, true, false, List, [], ◌∷◌, ◌++◌, Option, none, some, if◌then◌else◌, Bytes, Text,
  length, lookup, insert, remove, bytes_eq, ◌==◌, ℤ, pos, neg,
}
use sensorium.Base.Result.{Result, ok, raise}
use sensorium.Device.{
  Device, Backend, template_backend, controller_backend, Worker, enodev, epipe, etimedout,
}
use sensorium.Runtime.{Runtime, Event, Pending, WorkerState}
use sensorium.Runtime.Requests.{device_of}
use sensorium.Runtime.Backends.{
  queue_of, attach_backend, detach_backend, poll_next_event, reply_event, complete_pending,
  fail_managed_pending,
}
use sensorium.Runtime.Inventory.{Model}
use sensorium.Runtime.Apply.{reset_runtime, apply_model}
use sensorium.Runtime.Resync.{resync_runtime}

-- What the other threads call: RPC clients, and the reader and monitor of a worker process. Of the clients' calls that
-- change the state, device.update is left out, which leaves the dictionary of pending requests as it is, and so are those that only
-- send a frame.
pub data Call : Type 0 where
  poll : Text → Call
  reply_to : ℕ → ℤ → Bytes → Call
  attach : Text → List Text → Call
  detach : Text → List Text → Call
  worker_reply : ℕ → ℤ → Bytes → Call
  worker_exit : Text → Call
  reset resync : Call
  apply : Model → Call

unfoldable pub run_call : Call → Runtime → Runtime
unfolding poll_next_event reply_event attach_backend detach_backend complete_pending
    fail_managed_pending reset_runtime apply_model resync_runtime
run_call (poll backend_id) rt = (poll_next_event backend_id rt).1
run_call (reply_to request_id status bytes) rt = (reply_event request_id status bytes rt).1
run_call (attach backend_id ids) rt = (attach_backend backend_id ids rt).1
run_call (detach backend_id ids) rt = (detach_backend backend_id ids rt).1
run_call (worker_reply request_id status bytes) rt = (complete_pending request_id status bytes rt).1
run_call (worker_exit device_id) rt = fail_managed_pending device_id (neg epipe) rt
run_call reset rt = (reset_runtime rt).1
run_call resync rt = (resync_runtime rt).1
run_call (apply model) rt = (apply_model model rt).1

unfoldable pub run_calls : List Call → Runtime → Runtime
unfolding run_call
run_calls [] rt = rt
run_calls (c ∷ cs) rt = run_calls cs (run_call c rt)

-- `ControllerPending(event)`, entered in the dictionary
unfoldable pub register : Event → Runtime → Runtime
register event rt =
    let p : Pending = record { event = event; done = false; status = neg etimedout; reply = [] } in
    record rt { pending_controller = insert ◌==◌ event.request_id p rt.pending_controller }

unfoldable pub enqueue_event : Text → Event → Runtime → Runtime
enqueue_event backend_id event rt = record rt {
  backend_queues =
      insert bytes_eq backend_id (queue_of backend_id rt ++ event ∷ []) rt.backend_queues;
}

-- the outcome of a `ControllerPending`
abbrev pub outcome_of : Option Pending → ℤ × Bytes
outcome_of none = (neg etimedout, [])
outcome_of (some p) = if p.done then (p.status, p.reply) else (neg etimedout, [])

-- the object that a request waits on, in the dictionary or out of it
abbrev pub held : ℕ → Runtime → Option Pending
held request_id rt = elim (lookup ◌==◌ request_id rt.pending_controller) [
  | some p ↦ some p
  | none ↦ lookup ◌==◌ request_id rt.released
]

-- the wait for a reply, and what follows it
unfoldable pub await_reply : List Call → ℕ → Runtime → (ℤ × Bytes) × Runtime
unfolding run_calls
await_reply during request_id rt =
    let rt' = run_calls during rt in
    (
      outcome_of (held request_id rt'),
      record rt' {
        pending_controller = remove ◌==◌ request_id rt'.pending_controller;
        released = remove ◌==◌ request_id rt'.released;
      },
    )

-- What is outside of the daemon in one request: the calls while it waits, and whether the worker's
-- socket takes the event.
pub record Meanwhile : Type 0 where
  pub during : List Call
  pub event_sent : Bool

-- `_force_managed_worker_restart_locked`: the process is killed, and its monitor restarts it
unfoldable pub force_restart : Text → WorkerState → Runtime → Runtime
force_restart device_id w rt = record rt {
  managed_workers = insert bytes_eq device_id (record w { failed = true }) rt.managed_workers;
}

-- `_dispatch_managed_controller`
unfoldable pub dispatch_managed : Meanwhile → Device → Event → Runtime → (ℤ × Bytes) × Runtime
unfolding force_restart fail_managed_pending await_reply
dispatch_managed m d event rt = elim (lookup bytes_eq d.id rt.managed_workers) [
  | none ↦ ((neg epipe, []), rt)
  | some w ↦
      if m.event_sent
      then await_reply m.during event.request_id rt
      else ((neg epipe, []), fail_managed_pending d.id (neg epipe) (force_restart d.id w rt))
]

unfoldable pub dispatch_external : Meanwhile → Option Text → Event → Runtime → (ℤ × Bytes) × Runtime
unfolding register enqueue_event await_reply
dispatch_external m none event rt = ((neg enodev, []), rt)
dispatch_external m (some []) event rt = ((neg enodev, []), rt)
dispatch_external m (some (c ∷ cs)) event rt =
    await_reply m.during event.request_id (enqueue_event (c ∷ cs) event (register event rt))

-- `_dispatch_controller`
unfoldable pub dispatch_controller : Meanwhile → Device → Event → Runtime → (ℤ × Bytes) × Runtime
unfolding register dispatch_managed dispatch_external
dispatch_controller m d event rt = elim d.backend [
  | template_backend t ↦ dispatch_external m d.attached_backend event rt
  | controller_backend worker ↦ elim worker [
    | none ↦ dispatch_external m d.attached_backend event rt
    | some w ↦ dispatch_managed m d event (register event rt)
  ]
]
