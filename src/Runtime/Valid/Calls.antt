-- ===== src/Runtime/Valid/Calls.antt =====
-- src/sensorium/runtime/backends.py, bridge.py and managed_workers.py: the counters of the daemon over the
-- calls of controllers and workers, and over the wait for one of them.
use sensorium.Base.{
  ℕ, Bool-cases, Option-cases, List-cases, inl, inr, List, [], ◌∷◌, Option, none, some, Bytes, Text,
  lookup, bytes_eq, ◌==◌, ℤ,
}
use sensorium.Base.Result.{Result, ok, raise, Result-cases}
use sensorium.Device.{Device}
use sensorium.Device.Cases.{Backend-cases, of_template, of_external, of_worker}
use sensorium.Runtime.{Runtime, Event, Action}
use sensorium.Runtime.Requests.{device_of}
use sensorium.Runtime.Outside.{persist_snapshot}
use sensorium.Runtime.Backends.{
  queue_of, assert_mutation_allowed, with_queue, validate_attach, set_attached,
  attach_backend_locked, persisted, guarded, attach_backend, is_attached, detach_all, targets,
  detach_backend, poll_next_event, late_reply, complete_pending, reply_event, fail_managed_pending,
}
use sensorium.Runtime.Dispatch.{
  Call, poll, reply_to, attach, detach, worker_reply, worker_exit, reset, resync, apply, run_call,
  run_calls, register, enqueue_event, await_reply, Meanwhile, force_restart, dispatch_managed,
  dispatch_external, dispatch_controller,
}
use sensorium.Trace.{Writer, reset_counters}
use sensorium.Trace.Bounds as Bounds
use sensorium.Device.Counts.{IsCounted, fresh-IsCounted}
use sensorium.Runtime.{TraceRecord}
use sensorium.Runtime.Apply.{clear_state}
use sensorium.Runtime.Apply.Kept.{IsKept, Parts}
use sensorium.Runtime.Apply.Kept.Runs.{kept_reset, kept_apply, kept_resync}
use sensorium.Base.{arith, subst, sym, insert-AllValues}
use sensorium.Runtime.Valid.{
  Sound, DeviceCounted, IsValid, persist_snapshot-IsValid, modify_device-IsValid,
}

with_queue-IsValid : (b : Text) (rt : Runtime) → IsValid rt → IsValid (with_queue b rt)
unfolding with_queue
with_queue-IsValid b rt v = record { sound = v.sound }

set_attached-IsValid :
    (b : Option Text) (ids : List Text) (rt : Runtime)
    → IsValid rt
    → IsValid (set_attached b ids rt)
unfolding set_attached
set_attached-IsValid b [] rt v = v
set_attached-IsValid b (id ∷ ids) rt v =
    set_attached-IsValid b ids _
      (modify_device-IsValid id (λ d. record d { attached_backend = b }) rt (λ d c. c) v)

guarded-IsValid :
    {A : Type 0} (act : Action A) (rt : Runtime)
    → IsValid rt
    → IsValid (act rt).1
    → IsValid (guarded act rt).1
guarded-IsValid act rt v va = elim (Result-cases (assert_mutation_allowed rt)) [
  | inl (_, e) ↦ rw (e, guarded) va
  | inr (_, e) ↦ rw (e, guarded) v
]

persisted-IsValid : {A : Type 0} (r : Result A × Runtime) → IsValid r.1 → IsValid (persisted r).1
persisted-IsValid (ok a, rt) v = persist_snapshot-IsValid rt v
persisted-IsValid (raise e, rt) v = v

attach_backend_locked-IsValid :
    (b : Text) (ids : List Text) (rt : Runtime)
    → IsValid rt
    → IsValid (attach_backend_locked b ids rt).1
unfolding attach_backend_locked
attach_backend_locked-IsValid b ids rt v =
    let v' = with_queue-IsValid b rt v in
    elim (Result-cases (validate_attach ids (with_queue b rt))) [
      | inl (_, e) ↦
          rw (e, attach_backend_locked) (set_attached-IsValid (some b) ids (with_queue b rt) v')
      | inr (_, e) ↦ rw (e, attach_backend_locked) v'
    ]

attach_backend-IsValid :
    (b : Text) (ids : List Text) (rt : Runtime) → IsValid rt → IsValid (attach_backend b ids rt).1
unfolding attach_backend
attach_backend-IsValid b ids rt v =
    guarded-IsValid (λ rt'. persisted (attach_backend_locked b ids rt')) rt v
      (persisted-IsValid _ (attach_backend_locked-IsValid b ids rt v))

detach_all-IsValid :
    (b : Text) (ids : List Text) (rt : Runtime) → IsValid rt → IsValid (detach_all b ids rt).1
unfolding detach_all
detach_all-IsValid b [] rt v = v
detach_all-IsValid b (id ∷ ids) rt v =
    let left = detach_all-IsValid b ids rt v in
    let taken =
      detach_all-IsValid b ids (set_attached none (id ∷ []) rt)
        (set_attached-IsValid none (id ∷ []) rt v) in
    elim (Bool-cases (is_attached b (device_of id rt))) [
      | inl e ↦ rw (e, detach_all) taken
      | inr e ↦ rw (e, detach_all) left
    ]

detach_backend-IsValid :
    (b : Text) (ids : List Text) (rt : Runtime) → IsValid rt → IsValid (detach_backend b ids rt).1
unfolding detach_backend
detach_backend-IsValid b ids rt v =
    guarded-IsValid
      (λ rt'.
        let (detached, after) = detach_all b (targets ids rt') rt' in
        (ok detached, persist_snapshot after))
      rt v (persist_snapshot-IsValid _ (detach_all-IsValid b (targets ids rt) rt v))

poll_next_event-IsValid : (b : Text) (rt : Runtime) → IsValid rt → IsValid (poll_next_event b rt).1
unfolding poll_next_event
poll_next_event-IsValid b rt v = elim (List-cases (queue_of b rt)) [
  | inl e ↦ rw (e, poll_next_event) (with_queue-IsValid b rt v)
  | inr (event, rest, e) ↦ rw (e, poll_next_event) (record { sound = v.sound })
]

complete_pending-IsValid :
    (id : ℕ) (status : ℤ) (reply : Bytes) (rt : Runtime)
    → IsValid rt
    → IsValid (complete_pending id status reply rt).1
unfolding complete_pending late_reply
complete_pending-IsValid id status reply rt v =
    elim (Option-cases (lookup ◌==◌ id rt.pending_controller)) [
      | inl e ↦ rw (e, complete_pending) (record { sound = v.sound })
      | inr (p, e) ↦ rw (e, complete_pending) (record { sound = v.sound })
    ]

reply_event-IsValid :
    (id : ℕ) (status : ℤ) (reply : Bytes) (rt : Runtime)
    → IsValid rt
    → IsValid (reply_event id status reply rt).1
unfolding reply_event late_reply
reply_event-IsValid id status reply rt v =
    elim (Option-cases (lookup ◌==◌ id rt.pending_controller)) [
      | inl e ↦ rw (e, reply_event) (record { sound = v.sound })
      | inr (p, e) ↦ rw (e, reply_event) (complete_pending-IsValid id status reply rt v)
    ]

fail_managed_pending-IsValid :
    (id : Text) (status : ℤ) (rt : Runtime)
    → IsValid rt
    → IsValid (fail_managed_pending id status rt)
unfolding fail_managed_pending
fail_managed_pending-IsValid id status rt v = record { sound = v.sound }

-- emptying the counters keeps the queue
reset_counters-IsValid :
    (w : Writer TraceRecord) → Bounds.IsValid w → Bounds.IsValid (reset_counters w)
unfolding reset_counters
reset_counters-IsValid w v = record {
  counted = v.counted;
  some_records = v.some_records;
  within_records = v.within_records;
  within_bytes = v.within_bytes;
  depth_marked = omega arith;
  bytes_marked = omega arith;
}

IsValid-IsKept : IsKept IsValid
unfolding clear_state
IsValid-IsKept = record {
  same = λ rt rt' e v. record {
    sound =
        subst (λ (p : Parts). Sound p.totals p.devices p.trace p.trace_limit p.trace_writer) (sym e)
          v.sound;
  };
  changed = λ id f rt e v. modify_device-IsValid id f rt (λ d c. subst IsCounted (sym (e d)) c) v;
  entered = λ id d rt e v. record {
    sound = record {
      totals_counted = v.sound.totals_counted;
      devices_counted =
          insert-AllValues bytes_eq DeviceCounted id d rt.devices v.sound.devices_counted
            (subst IsCounted (sym e) fresh-IsCounted);
      trace_within = v.sound.trace_within;
      writer_valid = v.sound.writer_valid;
    };
  };
  cleared = λ rt v. record {
    sound = record {
      totals_counted = fresh-IsCounted;
      devices_counted = tt;
      trace_within = v.sound.trace_within;
      writer_valid = reset_counters-IsValid rt.trace_writer v.sound.writer_valid;
    };
  };
}

run_call-IsValid : (c : Call) (rt : Runtime) → IsValid rt → IsValid (run_call c rt)
unfolding run_call
run_call-IsValid (poll b) rt v = poll_next_event-IsValid b rt v
run_call-IsValid (reply_to id status bytes) rt v = reply_event-IsValid id status bytes rt v
run_call-IsValid (attach b ids) rt v = attach_backend-IsValid b ids rt v
run_call-IsValid (detach b ids) rt v = detach_backend-IsValid b ids rt v
run_call-IsValid (worker_reply id status bytes) rt v = complete_pending-IsValid id status bytes rt v
run_call-IsValid (worker_exit id) rt v = fail_managed_pending-IsValid id _ rt v
run_call-IsValid reset rt v = kept_reset IsValid IsValid-IsKept rt v
run_call-IsValid resync rt v = kept_resync IsValid IsValid-IsKept rt v
run_call-IsValid (apply model) rt v = kept_apply IsValid IsValid-IsKept model rt v

run_calls-IsValid : (cs : List Call) (rt : Runtime) → IsValid rt → IsValid (run_calls cs rt)
unfolding run_calls
run_calls-IsValid [] rt v = v
run_calls-IsValid (c ∷ cs) rt v = run_calls-IsValid cs (run_call c rt) (run_call-IsValid c rt v)

await_reply-IsValid :
    (cs : List Call) (id : ℕ) (rt : Runtime) → IsValid rt → IsValid (await_reply cs id rt).1
unfolding await_reply
await_reply-IsValid cs id rt v = record { sound = (run_calls-IsValid cs rt v).sound }

register-IsValid : (e : Event) (rt : Runtime) → IsValid rt → IsValid (register e rt)
unfolding register
register-IsValid e rt v = record { sound = v.sound }

dispatch_external-IsValid :
    (m : Meanwhile) (b : Option Text) (e : Event) (rt : Runtime)
    → IsValid rt
    → IsValid (dispatch_external m b e rt).1
unfolding dispatch_external enqueue_event
dispatch_external-IsValid m none e rt v = v
dispatch_external-IsValid m (some []) e rt v = v
dispatch_external-IsValid m (some (c ∷ cs)) e rt v =
    await_reply-IsValid m.during e.request_id _ (record { sound = (register-IsValid e rt v).sound })

dispatch_managed-IsValid :
    (m : Meanwhile) (d : Device) (e : Event) (rt : Runtime)
    → IsValid rt
    → IsValid (dispatch_managed m d e rt).1
unfolding dispatch_managed force_restart
dispatch_managed-IsValid m d e rt v =
    elim (Option-cases (lookup bytes_eq d.id rt.managed_workers)) [
      | inl none_yet ↦ rw (none_yet, dispatch_managed) v
      | inr (w, found) ↦ elim (Bool-cases m.event_sent) [
        | inl sent ↦
            rw (found, dispatch_managed, sent) (await_reply-IsValid m.during e.request_id rt v)
        | inr lost ↦
            rw (found, dispatch_managed, lost)
              (fail_managed_pending-IsValid d.id _ (force_restart d.id w rt)
                (record { sound = v.sound }))
      ]
    ]

pub dispatch_controller-IsValid :
    (m : Meanwhile) (d : Device) (e : Event) (rt : Runtime)
    → IsValid rt
    → IsValid (dispatch_controller m d e rt).1
unfolding dispatch_controller
dispatch_controller-IsValid m d e rt v = elim (Backend-cases d.backend) [
  | of_template t b ↦
      rw (b, dispatch_controller) (dispatch_external-IsValid m d.attached_backend e rt v)
  | of_external b ↦
      rw (b, dispatch_controller) (dispatch_external-IsValid m d.attached_backend e rt v)
  | of_worker w b ↦
      rw (b, dispatch_controller)
        (dispatch_managed-IsValid m d e (register e rt) (register-IsValid e rt v))
]
