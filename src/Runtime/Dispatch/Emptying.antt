-- ===== src/Runtime/Dispatch/Emptying.antt =====
-- src/sensorium/runtime/backends.py and inventory.py: the dictionary of pending requests over the calls of clients.
use sensorium.Base.{
  ℕ, ◌≡◌, ◌⊎◌, ◌++◌, refl, ap, ◌∙◌, Bool, true, false, Bool-cases, Option-cases, List-cases, inl,
  inr, List, [], ◌∷◌, Option, none, some, if◌then◌else◌, Text,
}
use sensorium.Base.Result.{Result, ok, raise, Result-cases}
use sensorium.Device.{Device}
use sensorium.Runtime.{Runtime, Pending, Action}
use sensorium.Runtime.Requests.{device_of, modify_device}
use sensorium.Runtime.Outside.{write_snapshot, refresh_bridge_metrics, persist_snapshot}
use sensorium.Runtime.Backends.{
  queue_of, assert_mutation_allowed, with_queue, validate_attach, set_attached,
  attach_backend_locked, persisted, guarded, attach_backend, is_attached, detach_all, targets,
  detach_backend, poll_next_event,
}
use sensorium.Runtime.Inventory.{Model}
use sensorium.Runtime.Apply.{clear_state, reset_runtime, apply_model}
use sensorium.Runtime.Resync.{resync_runtime}
use sensorium.Runtime.Apply.Kept.{IsKept, Parts}
use sensorium.Runtime.Apply.Kept.Runs.{kept_reset, kept_apply, kept_resync}

-- the dictionary of pending requests, and the objects that are out of it
abbrev pub pending : Runtime → List (ℕ × Pending) × List (ℕ × Pending)
pending rt = (rt.pending_controller, rt.released)

pending-if :
    (b : Bool) (x y : Runtime) (p : List (ℕ × Pending) × List (ℕ × Pending))
    → pending x ≡ p
    → pending y ≡ p
    → pending (if b then x else y) ≡ p
pending-if true x y p hx hy = hx
pending-if false x y p hx hy = hy

pending-metrics : (rt : Runtime) → pending (refresh_bridge_metrics rt) ≡ pending rt
unfolding refresh_bridge_metrics
pending-metrics rt = elim (Option-cases rt.port.metrics) [
  | inl e ↦ rw (e, refresh_bridge_metrics) refl
  | inr (m, e) ↦ rw (e, refresh_bridge_metrics) refl
]

pending-persist : (rt : Runtime) → pending (persist_snapshot rt) ≡ pending rt
unfolding persist_snapshot write_snapshot
pending-persist rt = pending-if _ _ _ (pending rt) refl (
    pending-if _ (write_snapshot false rt) (write_snapshot true (refresh_bridge_metrics rt))
      (pending rt) refl (pending-metrics rt))

pending-modify :
    (id : Text) (f : Device → Device) (rt : Runtime) → pending (modify_device id f rt) ≡ pending rt
unfolding modify_device
pending-modify id f rt = elim (Option-cases (device_of id rt)) [
  | inl e ↦ rw (e, modify_device) refl
  | inr (d, e) ↦ rw (e, modify_device) refl
]

pending-attached :
    (b : Option Text) (ids : List Text) (rt : Runtime)
    → pending (set_attached b ids rt) ≡ pending rt
unfolding set_attached
pending-attached b [] rt = refl
pending-attached b (id ∷ ids) rt =
    pending-attached b ids _ ∙ pending-modify id (λ d. record d { attached_backend = b }) rt

pending-guarded :
    {A : Type 0} (act : Action A) (rt : Runtime)
    → pending (act rt).1 ≡ pending rt
    → pending (guarded act rt).1 ≡ pending rt
pending-guarded act rt h = elim (Result-cases (assert_mutation_allowed rt)) [
  | inl (_, e) ↦ rw (e, guarded) h
  | inr (_, e) ↦ rw (e, guarded) refl
]

pending-persisted : {A : Type 0} (r : Result A × Runtime) → pending (persisted r).1 ≡ pending r.1
pending-persisted (ok a, rt) = pending-persist rt
pending-persisted (raise e, rt) = refl

pub pending-attach :
    (b : Text) (ids : List Text) (rt : Runtime) → pending (attach_backend b ids rt).1 ≡ pending rt
unfolding attach_backend attach_backend_locked with_queue
pending-attach b ids rt =
    pending-guarded (λ rt'. persisted (attach_backend_locked b ids rt')) rt
      (pending-persisted (attach_backend_locked b ids rt)
        ∙ elim (Result-cases (validate_attach ids (with_queue b rt))) [
          | inl (_, e) ↦
              rw (e, attach_backend_locked) (pending-attached (some b) ids (with_queue b rt))
          | inr (_, e) ↦ rw (e, attach_backend_locked) refl
        ])

pending-detach_all :
    (b : Text) (ids : List Text) (rt : Runtime) → pending (detach_all b ids rt).1 ≡ pending rt
unfolding detach_all
pending-detach_all b [] rt = refl
pending-detach_all b (id ∷ ids) rt =
    let left = pending-detach_all b ids rt in
    let taken =
      pending-detach_all b ids (set_attached none (id ∷ []) rt)
      ∙ pending-attached none (id ∷ []) rt in
    elim (Bool-cases (is_attached b (device_of id rt))) [
      | inl e ↦ rw (e, detach_all) taken
      | inr e ↦ rw (e, detach_all) left
    ]

pub pending-detach :
    (b : Text) (ids : List Text) (rt : Runtime) → pending (detach_backend b ids rt).1 ≡ pending rt
unfolding detach_backend
pending-detach b ids rt =
    pending-guarded
      (λ rt'.
        let (detached, after) = detach_all b (targets ids rt') rt' in
        (ok detached, persist_snapshot after))
      rt
      (pending-persist (detach_all b (targets ids rt) rt).1
        ∙ pending-detach_all b (targets ids rt) rt)

pub pending-poll : (b : Text) (rt : Runtime) → pending (poll_next_event b rt).1 ≡ pending rt
unfolding poll_next_event with_queue
pending-poll b rt = elim (List-cases (queue_of b rt)) [
  | inl e ↦ rw (e, poll_next_event) refl
  | inr (event, rest, e) ↦ rw (e, poll_next_event) refl
]

-- the dictionary has been emptied, or not, since it was `was`
abbrev pub Emptied : List (ℕ × Pending) × List (ℕ × Pending) → Runtime → Type 0
Emptied (was, out) rt = (pending rt ≡ (was, out)) ⊎ (pending rt ≡ ([], was ++ out))

pub Emptied-IsKept : (was out : List (ℕ × Pending)) → IsKept (Emptied (was, out))
unfolding clear_state
Emptied-IsKept was out = record {
  same = λ rt rt' e h.
      let same_pending : pending rt' ≡ pending rt = ap (λ (p : Parts). (p.pending, p.released)) e in
      elim h [ inl h' ↦ inl (same_pending ∙ h') | inr h' ↦ inr (same_pending ∙ h') ];
  changed = λ id f rt e h. elim h [
    | inl h' ↦ inl (pending-modify id f rt ∙ h')
    | inr h' ↦ inr (pending-modify id f rt ∙ h')
  ];
  entered = λ id d rt e h. elim h [ inl h' ↦ inl h' | inr h' ↦ inr h' ];
  cleared = λ rt h. elim h [
    | inl h' ↦ inr (ap (λ (v : List (ℕ × Pending) × List (ℕ × Pending)). ([], v.0 ++ v.1)) h')
    | inr h' ↦ inr (ap (λ (v : List (ℕ × Pending) × List (ℕ × Pending)). ([], v.0 ++ v.1)) h')
  ];
}

pub reset-Emptied : (rt : Runtime) → Emptied (pending rt) (reset_runtime rt).1
reset-Emptied rt =
    kept_reset (Emptied (pending rt)) (Emptied-IsKept rt.pending_controller rt.released) rt
      (inl refl)

pub resync-Emptied : (rt : Runtime) → Emptied (pending rt) (resync_runtime rt).1
resync-Emptied rt =
    kept_resync (Emptied (pending rt)) (Emptied-IsKept rt.pending_controller rt.released) rt
      (inl refl)

pub apply-Emptied : (m : Model) (rt : Runtime) → Emptied (pending rt) (apply_model m rt).1
apply-Emptied m rt =
    kept_apply (Emptied (pending rt)) (Emptied-IsKept rt.pending_controller rt.released) m rt
      (inl refl)
