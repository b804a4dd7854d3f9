-- ===== src/Runtime/Dispatch/Leak.antt =====
-- src/sensorium/runtime/managed_workers.py: a request for a worker process that does not run.
use sensorium.Base.{
  ℕ, ◌≡◌, refl, arith, true, false, [], none, some, lookup, bytes_eq, ◌==◌, lookup-insert_self, neg,
}
use sensorium.Device.{Device, controller_backend, Worker, epipe, etimedout}
use sensorium.Runtime.{Runtime, Event, Pending}
use sensorium.Runtime.Dispatch.{Meanwhile, register, dispatch_managed, dispatch_controller}

same_id : (n : ℕ) → (n == n) ≡ true
same_id n = ground arith

-- Where no worker process of the device runs, the request is answered with EPIPE, and its entry stays in the
-- dictionary of pending requests, which no one waits on any more.
pub dispatch_without_worker :
    (m : Meanwhile) (d : Device) (w : Worker) (e : Event) (rt : Runtime)
    → d.backend ≡ controller_backend (some w)
    → lookup bytes_eq d.id rt.managed_workers ≡ none
    → let (answer, rt') = dispatch_controller m d e rt in
      (answer ≡ (neg epipe, []))
      × (lookup ◌==◌ e.request_id rt'.pending_controller
          ≡ some (record { event = e; done = false; status = neg etimedout; reply = [] }))
unfolding dispatch_controller dispatch_managed register
dispatch_without_worker m d w e rt managed stopped =
    let p : Pending = record { event = e; done = false; status = neg etimedout; reply = [] } in
    rw (managed, dispatch_controller)
      (rw (stopped, dispatch_managed)
        (refl, lookup-insert_self ◌==◌ e.request_id p rt.pending_controller (same_id e.request_id)))
