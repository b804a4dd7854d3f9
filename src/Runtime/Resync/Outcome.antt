-- ===== src/Runtime/Resync/Outcome.antt =====
-- src/sensorium/runtime/state.py: the states that `resync_runtime` can end in.
use sensorium.Base.{ℕ, ◌+◌, ◌≡◌, refl, subst, ◌⊎◌, inl, inr, []}
use sensorium.Base.Result.{Result, ok, raise, Result-cases}
use sensorium.Bridge.Protocol.{cmd_reset}
use sensorium.Runtime.{Runtime, desynced, applying}
use sensorium.Runtime.Outside.{write_frame, refresh_bridge_metrics}
use sensorium.Runtime.Inventory.Ends.{EndsIn, EndsIn-behind}
use sensorium.Runtime.Apply.{
  Snapshot, take_snapshot, validate_attachments, set_state, clear_state, apply_locked,
}
use sensorium.Runtime.Apply.Placing.{
  Persists-refresh, IsApplied, apply_locked-IsApplied, clear_state-IsClear, persist-desynced,
}
use sensorium.Runtime.Resync.{rebuild, after_rebuild, resync_runtime}

write_frame-generation :
    (msg_type : ℕ) (rt : Runtime) → (write_frame msg_type [] rt).1.generation ≡ rt.generation
unfolding write_frame
write_frame-generation msg_type rt = refl

module _ (snap : Snapshot) where
  abbrev Rebuilt : ℕ → Runtime → Type 0
  Rebuilt generation = IsApplied snap.model snap.attachments generation

  rebuild-IsApplied : (rt : Runtime) → EndsIn (Rebuilt (rt.generation + 1)) (rebuild snap rt)
  unfolding rebuild
  rebuild-IsApplied rt =
      let reset = (write_frame cmd_reset [] rt).1 in
      let clear = clear_state-IsClear reset in
      EndsIn-behind (Rebuilt (rt.generation + 1)) (write_frame cmd_reset [] rt) _ (λ _.
        subst
          (λ g. EndsIn (Rebuilt (g + 1)) (
            apply_locked snap.model (reset.generation + 1) snap.attachments
              (set_state applying (clear_state reset))))
          (write_frame-generation cmd_reset rt)
          (apply_locked-IsApplied snap.model (reset.generation + 1) snap.attachments
            (set_state applying (clear_state reset)) clear.clear_buses clear.clear_devices))

-- whether the daemon's attachments fit the devices that it exports
abbrev pub attachments_fit : Runtime → Result (Unit {0})
attachments_fit rt =
    validate_attachments (take_snapshot rt).model.devices (take_snapshot rt).attachments

-- what a resync leaves of a daemon
abbrev pub IsResynced : Runtime → Result (Unit {0}) × Runtime → Type 0
IsResynced rt (ok _, rt') =
    IsApplied (take_snapshot rt).model (take_snapshot rt).attachments (rt.generation + 1) rt'
IsResynced rt (raise e, rt') =
    ((attachments_fit rt ≡ raise e) × (rt' ≡ refresh_bridge_metrics rt))
    ⊎ ((attachments_fit rt ≡ ok tt) × (rt'.runtime_state ≡ desynced))

after_rebuild-IsResynced :
    (rt rt' : Runtime) (x : Result (Unit {0}) × Runtime)
    → rt'.generation ≡ rt.generation
    → attachments_fit rt ≡ ok tt
    → EndsIn (Rebuilt (take_snapshot rt) (rt'.generation + 1)) x
    → IsResynced rt (after_rebuild x)
after_rebuild-IsResynced rt rt' (ok _, end) e fit h =
    subst (λ g. Rebuilt (take_snapshot rt) (g + 1) end) e h.here
after_rebuild-IsResynced rt rt' (raise error, end) e fit h = inr (fit, persist-desynced end)

-- A resync of the daemon, desynced or not, that raises nothing leaves exactly the buses and devices, with their
-- attachments, that the daemon exported, under the next generation, and is `ready` unless the kernel reports a desync. One
-- that raises is one whose attachments do not fit the exported devices, and has only read the kernel's metrics; or
-- it leaves the daemon desynced.
pub resync_settles : (rt : Runtime) → IsResynced rt (resync_runtime rt)
unfolding resync_runtime
resync_settles rt =
    let snap = take_snapshot rt in
    elim (Result-cases (attachments_fit rt)) [
      | inl (tt, e) ↦
          rw (e, resync_runtime)
            (after_rebuild-IsResynced rt (refresh_bridge_metrics rt)
              (rebuild snap (refresh_bridge_metrics rt)) (Persists-refresh rt).same_generation e
              (rebuild-IsApplied snap (refresh_bridge_metrics rt)))
      | inr (err, e) ↦ rw (e, resync_runtime) (inl (e, refl))
    ]
