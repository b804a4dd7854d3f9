-- ===== src/Runtime/Apply/Kept/Workers.antt =====
-- src/sensorium/runtime/managed_workers.py and backends.py: what starting workers and attaching backends keep.
use sensorium.Base.{
  ◌+◌, ◌≡◌, refl, Bool, true, false, Bool-cases, Option-cases, inl, inr, List, [], ◌∷◌, Option,
  some, Text,
}
use sensorium.Base.Result.{Result-cases}
use sensorium.Device.{Device, Worker}
use sensorium.Runtime.{
  Runtime, BridgeStats, DaemonState, empty, applying, ready, degraded, desynced,
}
use sensorium.Runtime.Requests.{modify_device}
use sensorium.Runtime.Backends.{attach_backend_locked, validate_attach, set_attached, with_queue}
use sensorium.Runtime.Workers.{
  start_workers, worker_config, refresh_workers_state, set_degraded, record_failure, next_launch,
  launch_worker, after_launch, tried, running, started,
}
use sensorium.Runtime.Apply.{attach_all}
use sensorium.Runtime.Apply.Kept.{IsKept, kept_then}

module _ (P : Runtime → Type 0) (k : IsKept P) where
  kept_refresh :
      (rt : Runtime) (s : DaemonState) → rt.runtime_state ≡ s → P rt → P (refresh_workers_state rt)
  unfolding refresh_workers_state
  kept_refresh rt desynced e h = rw (e, refresh_workers_state) h
  kept_refresh rt empty e h = rw (e, refresh_workers_state) (k.same rt _ refl h)
  kept_refresh rt applying e h = rw (e, refresh_workers_state) (k.same rt _ refl h)
  kept_refresh rt ready e h = rw (e, refresh_workers_state) (k.same rt _ refl h)
  kept_refresh rt degraded e h = rw (e, refresh_workers_state) (k.same rt _ refl h)

  kept_degraded : (id : Text) (flag : Bool) (rt : Runtime) → P rt → P (set_degraded id flag rt)
  unfolding set_degraded
  kept_degraded id flag rt h =
      kept_refresh (modify_device id (λ d. record d { degraded = flag }) rt) _ refl
        (k.changed id (λ d. record d { degraded = flag }) rt (λ d. refl) h)

  kept_launch :
      (id : Text) (w : Worker) (rt : Runtime) → P rt → P (after_launch id (launch_worker id w 0 rt))
  unfolding launch_worker record_failure
  kept_launch id w rt h =
      let try = (tried id rt).1 in
      let stats : BridgeStats = record (rt.bridge_stats) {
        worker_restarts = rt.bridge_stats.worker_restarts + 1;
      } in
      elim (Bool-cases (next_launch rt.port.launches).0) [
        | inl runs ↦
            rw (runs, launch_worker)
              (kept_degraded id false (running id (started w 0) try) (k.same rt _ refl h))
        | inr refused ↦
            rw (refused, launch_worker)
              (kept_degraded id true (record try { bridge_stats = stats }) (k.same rt _ refl h))
      ]

  pub kept_workers : (ds : List (Text × Device)) (rt : Runtime) → P rt → P (start_workers ds rt)
  unfolding start_workers
  kept_workers [] rt h = h
  kept_workers ((id, d) ∷ rest) rt h = elim (Option-cases (worker_config d.backend)) [
    | inl e ↦ rw (e, start_workers) (kept_workers rest rt h)
    | inr (w, e) ↦
        rw (e, start_workers)
          (kept_workers rest (after_launch id (launch_worker id w 0 rt)) (kept_launch id w rt h))
  ]

  kept_attached :
      (b : Option Text) (ids : List Text) (rt : Runtime) → P rt → P (set_attached b ids rt)
  unfolding set_attached
  kept_attached b [] rt h = h
  kept_attached b (id ∷ ids) rt h =
      kept_attached b ids _ (k.changed id (λ d. record d { attached_backend = b }) rt (λ d. refl) h)

  kept_locked :
      (b : Text) (ids : List Text) (rt : Runtime) → P rt → P (attach_backend_locked b ids rt).1
  unfolding attach_backend_locked with_queue
  kept_locked b ids rt h =
      let h' = k.same rt (with_queue b rt) refl h in
      elim (Result-cases (validate_attach ids (with_queue b rt))) [
        | inl (a, e) ↦
            rw (e, attach_backend_locked) (kept_attached (some b) ids (with_queue b rt) h')
        | inr (err, e) ↦ rw (e, attach_backend_locked) h'
      ]

  pub kept_all :
      (attachments : List (Text × List Text)) (rt : Runtime)
      → P rt
      → P (attach_all attachments rt).1
  unfolding attach_all
  kept_all [] rt h = h
  kept_all ((b, []) ∷ rest) rt h = kept_all rest rt h
  kept_all ((b, id ∷ ids) ∷ rest) rt h =
      kept_then P k (attach_backend_locked b (id ∷ ids) rt) _ (kept_locked b (id ∷ ids) rt h)
        (λ _ rt' h'. kept_all rest rt' h')
