-- ===== src/Runtime/Outside.antt =====
-- The daemon's calls of the bridge and of the snapshot file: src/sensorium/runtime/state.py,
-- `_refresh_bridge_metrics_locked` and `_persist_snapshot_locked`.
use sensorium.Base.{
  ℕ, ◌+◌, max, Bool, true, false, not, ◌&&◌, List, [], ◌∷◌, ◌++◌, none, some, if◌then◌else◌, Bytes,
  length, ◌==◌,
}
use sensorium.Base.Result.{Result, ok, raise}
use sensorium.Bridge.{Metrics, Entry}
use sensorium.Runtime.{Runtime, Port, desynced, BridgeStats, Persistence, Action}

-- the outcome of a call, and the port behind it; with no outcome given, the call succeeds
abbrev next_outcome : List (Result (Unit {0})) → Result (Unit {0}) × List (Result (Unit {0}))
next_outcome [] = (ok tt, [])
next_outcome (o ∷ os) = (o, os)

abbrev took : Result (Unit {0}) → Entry → List Entry → List Entry
took (ok _) e sent = sent ++ e ∷ []
took (raise _) e sent = sent

-- `self.bridge.write_frame`. That the ioctl fails behind a frame that is published is left out: a call that
-- raises has sent nothing.
unfoldable pub write_entry : Entry → Action (Unit {0})
write_entry e rt =
    let (outcome, outcomes) = next_outcome rt.port.outcomes in
    let sent = took outcome e rt.port.sent in
    let p : Port = record (rt.port) { sent = sent; outcomes = outcomes } in
    (outcome, record rt { port = p })

-- a command, with no message id and no generation
abbrev pub command : ℕ → Bytes → Entry
command msg_type payload = record {
  msg_type = msg_type;
  message_id = 0;
  generation = 0;
  payload = payload;
}

unfoldable pub write_frame : ℕ → Bytes → Action (Unit {0})
unfolding write_entry
write_frame msg_type payload = write_entry (command msg_type payload)

-- the statistics that the kernel's counters replace
unfoldable pub with_metrics : Metrics → BridgeStats → BridgeStats
with_metrics m s = record s {
  session_id = some m.session_id;
  inflight = m.inflight_requests;
  inflight_max = max s.inflight_max m.inflight_requests;
  control_depth = m.control_depth;
  transport_depth = m.transport_depth;
  reply_depth = m.reply_depth;
  ebusy_generation = m.ebusy_generation;
  ebusy_total = m.ebusy_total;
  request_timeout_generation = m.request_timeout_generation;
  request_timeout_total = m.request_timeout_total;
}

-- The guard `self.runtime_state != "desynced"` only spares a second reason.
unfoldable pub refresh_bridge_metrics : Runtime → Runtime
unfolding with_metrics
refresh_bridge_metrics rt = elim rt.port.metrics [
  | none ↦ rt
  | some m ↦ record rt {
    bridge_stats = with_metrics m rt.bridge_stats;
    runtime_state = if m.desynced then desynced else rt.runtime_state;
  }
]

abbrev next_write : List Bool → Bool × List Bool
next_write [] = (true, [])
next_write (o ∷ os) = (o, os)

-- the file is written (`saved`) or unlinked, or that fails
unfoldable pub write_snapshot : Bool → Runtime → Runtime
write_snapshot saved rt =
    let (done, rest) = next_write rt.port.file_writes in
    let p : Port = record (rt.port) { file_writes = rest } in
    let good : Persistence = record (rt.persistence) {
      snapshot_saved = saved;
      snapshot_failed = false;
    } in
    let bad : Persistence = record (rt.persistence) {
      snapshot_write_errors = rt.persistence.snapshot_write_errors + 1;
      snapshot_failed = true;
    } in
    record rt { port = p; persistence = if done then good else bad }

-- `_persist_snapshot_locked`
unfoldable pub persist_snapshot : Runtime → Runtime
unfolding refresh_bridge_metrics write_snapshot
persist_snapshot rt =
    if not rt.snapshot_path
    then rt
    else if length rt.buses == 0 && length rt.devices == 0
    then write_snapshot false rt
    else write_snapshot true (refresh_bridge_metrics rt)
