-- ===== src/Runtime/Apply/Kept/Runs.antt =====
-- src/sensorium/runtime/inventory.py: what a reset, a new model and a resync (state.py) keep, whatever fails on the way.
use sensorium.Base.{ℕ, ◌+◌, refl, Bool-cases, inl, inr, List, [], Option, none, some, Text}
use sensorium.Base.Result.{Error, Result, ok, raise, Result-cases}
use sensorium.Bridge.Protocol.{cmd_reset}
use sensorium.Runtime.{Runtime, empty, applying, desynced}
use sensorium.Runtime.Outside.{write_frame, refresh_bridge_metrics, persist_snapshot}
use sensorium.Runtime.Backends.{assert_mutation_allowed, guarded}
use sensorium.Runtime.Workers.{start_workers}
use sensorium.Runtime.Inventory.{Model}
use sensorium.Runtime.Apply.{
  clear_state, set_state, no_snapshot_error, reset_runtime, add_buses, add_devices, attach_all,
  apply_locked, set_ready, Snapshot, begin_apply, has_model, take_snapshot, try_apply, discarded,
  discard_state, validate_attachments, after_restore, restore_previous, after_discard, after_try,
  apply_model,
}
use sensorium.Runtime.Resync.{rebuild, after_rebuild, resync_runtime}
use sensorium.Runtime.Apply.Kept.{
  IsKept, parts-refresh, kept_then, kept_persist, kept_write, kept_buses, kept_devices,
}
use sensorium.Runtime.Apply.Kept.Workers.{kept_workers, kept_all}

module _ (P : Runtime → Type 0) (k : IsKept P) where
  pub kept_apply_locked :
      (m : Model) (generation : ℕ) (attachments : List (Text × List Text)) (rt : Runtime)
      → P rt
      → P (apply_locked m generation attachments rt).1
  unfolding apply_locked
  kept_apply_locked m generation attachments rt h =
      kept_then P k (add_buses m.buses (record rt { model_name = some m.name })) _
        (kept_buses P k m.buses _ (k.same rt _ refl h))
        (λ _ rt1 h1.
          kept_then P k (add_devices m.devices rt1) _ (kept_devices P k m.devices rt1 h1)
            (λ _ rt2 h2.
              kept_then P k (attach_all attachments (start_workers rt2.devices rt2)) _
                (kept_all P k attachments _ (kept_workers P k rt2.devices rt2 h2))
                (λ _ rt3 h3. kept_persist P k (set_ready generation rt3) (k.same rt3 _ refl h3))))

  -- behind the clearing
  abbrev numbered : Runtime → Runtime
  numbered rt =
      let cleared = no_snapshot_error (set_state empty (clear_state rt)) in
      record cleared { generation = cleared.generation + 1 }

  pub kept_reset : (rt : Runtime) → P rt → P (reset_runtime rt).1
  unfolding reset_runtime
  kept_reset rt h = elim (Result-cases (assert_mutation_allowed rt)) [
    | inr (_, e) ↦ rw (e, reset_runtime, guarded) h
    | inl (_, e) ↦
        rw (e, reset_runtime, guarded)
          (kept_then P k (write_frame cmd_reset [] rt)
            (λ _ rt'. (ok tt, persist_snapshot (numbered rt'))) (kept_write P k cmd_reset [] rt h)
            (λ _ rt' h'.
              kept_persist P k (numbered rt') (k.same (clear_state rt') _ refl (k.cleared rt' h'))))
  ]

  kept_begin : (rt : Runtime) → P rt → P (begin_apply rt).1
  unfolding begin_apply
  kept_begin rt h = elim (Bool-cases (has_model rt)) [
    | inl there ↦ rw (there, begin_apply) (k.same rt _ (parts-refresh rt) h)
    | inr new ↦ rw (new, begin_apply) (k.same rt _ refl h)
  ]

  kept_try : (m : Model) (generation : ℕ) (rt : Runtime) → P rt → P (try_apply m generation rt).1
  unfolding try_apply
  kept_try m generation rt h =
      kept_then P k (write_frame cmd_reset [] rt) _ (kept_write P k cmd_reset [] rt h)
        (λ _ rt' h'. kept_apply_locked m generation [] (clear_state rt') (k.cleared rt' h'))

  pub kept_desynced : (rt : Runtime) → P rt → P (persist_snapshot (set_state desynced rt))
  kept_desynced rt h = kept_persist P k (set_state desynced rt) (k.same rt _ refl h)

  kept_discarded : (x : Result (Unit {0}) × Runtime) → P x.1 → P (discarded x).1
  unfolding discarded
  kept_discarded (ok _, rt) h =
      kept_persist P k (set_state empty (clear_state rt))
        (k.same (clear_state rt) _ refl (k.cleared rt h))
  kept_discarded (raise e, rt) h = kept_desynced rt h

  kept_after_restore :
      (error : Error) (x : Result (Unit {0}) × Runtime) → P x.1 → P (after_restore error x).1
  kept_after_restore error (ok _, rt) h = h
  kept_after_restore error (raise _, rt) h = kept_desynced rt h

  kept_restore :
      (error : Error) (generation : ℕ) (snap : Snapshot) (rt : Runtime)
      → P rt
      → P (restore_previous error generation snap rt).1
  unfolding restore_previous
  kept_restore error generation snap rt h =
      elim (Result-cases (validate_attachments snap.model.devices snap.attachments)) [
        | inl (a, e) ↦
            rw (e, restore_previous)
              (kept_after_restore error _ (
                kept_apply_locked snap.model generation snap.attachments (clear_state rt)
                  (k.cleared rt h)))
        | inr (err, e) ↦ rw (e, restore_previous) (kept_desynced rt h)
      ]

  kept_after_discard :
      (error : Error) (generation : ℕ) (previous : Option Snapshot)
      (x : Result (Unit {0}) × Runtime)
      → P x.1
      → P (after_discard error generation previous x).1
  kept_after_discard error generation previous (raise _, rt) h = kept_desynced rt h
  kept_after_discard error generation none (ok _, rt) h = h
  kept_after_discard error generation (some snap) (ok _, rt) h =
      kept_restore error generation snap rt h

  kept_after_try :
      (generation : ℕ) (previous : Option Snapshot) (x : Result (Unit {0}) × Runtime)
      → P x.1
      → P (after_try generation previous x).1
  unfolding discard_state
  kept_after_try generation previous (ok _, rt) h = h
  kept_after_try generation previous (raise error, rt) h =
      kept_after_discard error generation previous (discard_state rt)
        (kept_discarded _ (kept_write P k cmd_reset [] rt h))

  pub kept_apply : (m : Model) (rt : Runtime) → P rt → P (apply_model m rt).1
  unfolding apply_model
  kept_apply m rt h = elim (Result-cases (assert_mutation_allowed rt)) [
    | inr (_, e) ↦ rw (e, apply_model, guarded) h
    | inl (_, e) ↦
        rw (e, apply_model, guarded)
          (kept_after_try rt.generation (begin_apply rt).0 _
            (kept_try m (rt.generation + 1) (begin_apply rt).1 (kept_begin rt h)))
  ]

  kept_rebuild : (snap : Snapshot) (rt : Runtime) → P rt → P (rebuild snap rt).1
  unfolding rebuild
  kept_rebuild snap rt h =
      kept_then P k (write_frame cmd_reset [] rt) _ (kept_write P k cmd_reset [] rt h) (λ _ rt' h'.
        kept_apply_locked snap.model (rt'.generation + 1) snap.attachments
          (set_state applying (clear_state rt'))
          (k.same (clear_state rt') _ refl (k.cleared rt' h')))

  kept_after_rebuild : (x : Result (Unit {0}) × Runtime) → P x.1 → P (after_rebuild x).1
  kept_after_rebuild (ok _, rt) h = h
  kept_after_rebuild (raise e, rt) h = kept_desynced rt h

  pub kept_resync : (rt : Runtime) → P rt → P (resync_runtime rt).1
  unfolding resync_runtime
  kept_resync rt h =
      let snap = take_snapshot rt in
      let h' = k.same rt (refresh_bridge_metrics rt) (parts-refresh rt) h in
      elim (Result-cases (validate_attachments snap.model.devices snap.attachments)) [
        | inl (a, e) ↦ rw (e, resync_runtime) (kept_after_rebuild _ (kept_rebuild snap _ h'))
        | inr (err, e) ↦ rw (e, resync_runtime) h'
      ]
