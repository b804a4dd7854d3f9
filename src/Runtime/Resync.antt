-- ===== src/Runtime/Resync.antt =====
-- src/sensorium/runtime/state.py, `resync_runtime`: the kernel's inventory is built again from the daemon's own. The model
-- that the daemon exported is taken to be accepted again.
pub mod Outcome
use sensorium.Base.{◌+◌, Option, none, some, []}
use sensorium.Base.Result.{Result, ok, raise}
use sensorium.Bridge.Protocol.{cmd_reset}
use sensorium.Runtime.{Runtime, applying, desynced, Action}
use sensorium.Runtime.Outside.{write_frame, refresh_bridge_metrics, persist_snapshot}
use sensorium.Runtime.Inventory.{◌and_then◌}
use sensorium.Runtime.Apply.{
  Snapshot, take_snapshot, validate_attachments, clear_state, set_state, apply_locked,
}

-- the `try` block: the generation is the one at the end of the reset, and one more
unfoldable pub rebuild : Snapshot → Action (Unit {0})
rebuild snap rt = write_frame cmd_reset [] rt and_then λ _ rt'.
    apply_locked snap.model (rt'.generation + 1) snap.attachments
      (set_state applying (clear_state rt'))

-- the `except` block
abbrev pub after_rebuild : Result (Unit {0}) × Runtime → Result (Unit {0}) × Runtime
after_rebuild (ok _, rt) = (ok tt, rt)
after_rebuild (raise error, rt) = (raise error, persist_snapshot (set_state desynced rt))

-- `resync_runtime`, which a desynced daemon may run; the summary of the health refreshes the metrics
unfoldable pub resync_runtime : Action (Unit {0})
resync_runtime rt =
    let snap = take_snapshot rt in
    let rt' = refresh_bridge_metrics rt in
    elim (validate_attachments snap.model.devices snap.attachments) [
      | raise e ↦ (raise e, rt')
      | ok _ ↦ after_rebuild (rebuild snap rt')
    ]
