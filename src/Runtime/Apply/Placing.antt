-- ===== src/Runtime/Apply/Placing.antt =====
-- src/sensorium/runtime/inventory.py, `_apply_model_locked`: a model and its attachments in place.
use sensorium.Base.{
  ℕ, ◌≡◌, refl, ◌⊎◌, inl, inr, Bool, true, false, Option-cases, List, [], Option, none, some, Text,
  not, ◌&&◌, ◌==◌, length, subst, ◌∙◌, if◌then◌else◌, if-both, map_values,
}
use sensorium.Bridge.{Metrics}
use sensorium.Runtime.{Runtime, ready, desynced}
use sensorium.Runtime.Outside.{
  write_snapshot, with_metrics, refresh_bridge_metrics, persist_snapshot,
}
use sensorium.Runtime.Workers.{start_workers}
use sensorium.Runtime.Inventory.Ends.{EndsIn, EndsIn-then}
use sensorium.Runtime.Inventory.Handles.{SameTables}
use sensorium.Runtime.Inventory.{Model}
use sensorium.Runtime.Apply.{
  clear_state, set_state, add_buses, add_devices, attach_all, set_ready, apply_locked,
}
use sensorium.Runtime.Apply.Tables.{
  Placed, buses_of, devices_of, attached_of, Holds, Holds-same, add_buses-Holds, add_devices-Holds,
}
use sensorium.Runtime.Apply.Attached.{start_workers-Holds, attach_all-Holds}

-- the kernel reports that it has lost step with the daemon
pub record ReportsDesync (reported : Option Metrics) : Type 0 where
  pub metrics : Metrics
  pub read : reported ≡ some metrics
  pub lost : metrics.desynced ≡ true

-- writing the snapshot leaves the model, the generation, and the state unless the kernel reports a desync
pub record Persists (rt rt' : Runtime) : Type 0 where
  pub same_generation : rt'.generation ≡ rt.generation
  pub same_tables : SameTables rt rt'
  pub same_metrics : rt'.port.metrics ≡ rt.port.metrics
  pub state :
      (rt'.runtime_state ≡ rt.runtime_state)
      ⊎ ((rt'.runtime_state ≡ desynced) × ReportsDesync rt.port.metrics)

abbrev all_same : (rt : Runtime) → SameTables rt rt
all_same rt = record {
  same_devices = refl;
  same_handles = refl;
  same_next = refl;
  same_buses = refl;
  same_name = refl;
}

Persists-itself : (rt : Runtime) → Persists rt rt
Persists-itself rt = record {
  same_generation = refl;
  same_tables = all_same rt;
  same_metrics = refl;
  state = inl refl;
}

abbrev refreshed : Option Metrics → Runtime → Runtime
refreshed none rt = rt
refreshed (some m) rt = record rt {
  bridge_stats = with_metrics m rt.bridge_stats;
  runtime_state = if m.desynced then desynced else rt.runtime_state;
}

Persists-refreshed :
    (o : Option Metrics) (rt : Runtime) → rt.port.metrics ≡ o → Persists rt (refreshed o rt)
Persists-refreshed none rt e = Persists-itself rt
Persists-refreshed (some m) rt e = record {
  same_generation = refl;
  same_tables = record {
    same_devices = refl;
    same_handles = refl;
    same_next = refl;
    same_buses = refl;
    same_name = refl;
  };
  same_metrics = refl;
  state =
      if-both (λ s. (s ≡ rt.runtime_state) ⊎ ((s ≡ desynced) × ReportsDesync rt.port.metrics))
        m.desynced _ _ (λ bad. inr (refl, record { metrics = m; read = e; lost = bad }))
        (λ good. inl refl);
}

refresh_lem : (rt : Runtime) → refreshed rt.port.metrics rt ≡ refresh_bridge_metrics rt
unfolding refresh_bridge_metrics
refresh_lem rt = elim (Option-cases rt.port.metrics) [
  | inl e ↦ simp (e, refresh_bridge_metrics)
  | inr (m, e) ↦ simp (e, refresh_bridge_metrics)
]

pub Persists-refresh : (rt : Runtime) → Persists rt (refresh_bridge_metrics rt)
Persists-refresh rt =
    subst (Persists rt) (refresh_lem rt) (Persists-refreshed rt.port.metrics rt refl)

Persists-write :
    (saved : Bool) (rt rt' : Runtime) → Persists rt rt' → Persists rt (write_snapshot saved rt')
unfolding write_snapshot
Persists-write saved rt rt' h = record {
  same_generation = h.same_generation;
  same_tables = record {
    same_devices = h.same_tables.same_devices;
    same_handles = h.same_tables.same_handles;
    same_next = h.same_tables.same_next;
    same_buses = h.same_tables.same_buses;
    same_name = h.same_tables.same_name;
  };
  same_metrics = h.same_metrics;
  state = h.state;
}

pub Persists-persist : (rt : Runtime) → Persists rt (persist_snapshot rt)
unfolding persist_snapshot
Persists-persist rt =
    if-both (Persists rt) (not rt.snapshot_path) _ _ (λ _. Persists-itself rt)
      (λ _.
        if-both (Persists rt) (length rt.buses == 0 && length rt.devices == 0) _ _
          (λ _. Persists-write false rt rt (Persists-itself rt))
          (λ _. Persists-write true rt (refresh_bridge_metrics rt) (Persists-refresh rt)))

-- a generation that is `ready`, or desynced as the kernel reports
abbrev pub IsUp : ℕ → Runtime → Type 0
IsUp generation rt =
    (rt.generation ≡ generation)
    × ((rt.runtime_state ≡ ready) ⊎ ((rt.runtime_state ≡ desynced) × ReportsDesync rt.port.metrics))

-- the daemon has the model's name, exactly its buses, and these devices, with what they are attached to
pub record InPlace (m : Model) (devices : List (Text × Placed)) (generation : ℕ) (rt : Runtime)
    : Type 0 where
  pub tables : Holds m.name (buses_of m.buses []) devices rt
  pub up : IsUp generation rt

-- The model and its attachments are in place: the devices are exactly the model's, each attached as it is to be.
abbrev pub IsApplied : Model → List (Text × List Text) → ℕ → Runtime → Type 0
IsApplied m attachments = InPlace m (attached_of attachments (devices_of m.devices []))

pub InPlace-persist :
    (m : Model) (ds : List (Text × Placed)) (generation : ℕ) (rt : Runtime)
    → InPlace m ds generation rt
    → InPlace m ds generation (persist_snapshot rt)
InPlace-persist m ds generation rt h =
    let kept = Persists-persist rt in
    let still : ReportsDesync rt.port.metrics → ReportsDesync (persist_snapshot rt).port.metrics =
      λ r. record { metrics = r.metrics; read = kept.same_metrics ∙ r.read; lost = r.lost } in
    record {
      tables = Holds-same m.name _ ds rt (persist_snapshot rt) kept.same_tables h.tables;
      up = (
        kept.same_generation ∙ h.up.0,
        elim kept.state [
          | inr (bad, r) ↦ inr (bad, still r)
          | inl same ↦ elim h.up.1 [
            | inl up ↦ inl (same ∙ up)
            | inr (bad, r) ↦ inr (same ∙ bad, still r)
          ]
        ],
      );
    }

-- with the dictionaries empty
pub record IsClear (rt : Runtime) : Type 0 where
  pub clear_buses : rt.buses ≡ []
  pub clear_devices : rt.devices ≡ []

pub clear_state-IsClear : (rt : Runtime) → IsClear (clear_state rt)
unfolding clear_state
clear_state-IsClear rt = record { clear_buses = refl; clear_devices = refl }

IsClear-Holds :
    (name : Text) (rt : Runtime)
    → rt.buses ≡ []
    → rt.devices ≡ []
    → Holds name [] [] (record rt { model_name = some name })
unfolding map_values
IsClear-Holds name rt b d = record { named = refl; has_buses = rw b refl; has_devices = rw d refl }

-- on a daemon with no buses and devices
pub apply_locked-IsApplied :
    (m : Model) (generation : ℕ) (attachments : List (Text × List Text)) (rt : Runtime)
    → rt.buses ≡ []
    → rt.devices ≡ []
    → EndsIn (IsApplied m attachments generation) (apply_locked m generation attachments rt)
unfolding apply_locked
apply_locked-IsApplied m generation attachments rt no_buses no_devices =
    let bs = buses_of m.buses [] in
    let ds = devices_of m.devices [] in
    let named : Runtime = record rt { model_name = some m.name } in
    EndsIn-then (Holds m.name bs []) (IsApplied m attachments generation) (add_buses m.buses named)
      _ (add_buses-Holds m.name m.buses [] [] named (IsClear-Holds m.name rt no_buses no_devices))
      (λ _ rt1 h1.
        EndsIn-then (Holds m.name bs ds) (IsApplied m attachments generation)
          (add_devices m.devices rt1) _ (add_devices-Holds m.name bs m.devices [] rt1 h1)
          (λ _ rt2 h2.
            EndsIn-then (Holds m.name bs (attached_of attachments ds))
              (IsApplied m attachments generation)
              (attach_all attachments (start_workers rt2.devices rt2)) _
              (attach_all-Holds m.name bs attachments ds (start_workers rt2.devices rt2)
                (start_workers-Holds m.name bs rt2.devices ds rt2 h2))
              (λ _ rt3 h3. record {
                here =
                    InPlace-persist m (attached_of attachments ds) generation
                      (set_ready generation rt3)
                      (record {
                        tables = record {
                          named = h3.named;
                          has_buses = h3.has_buses;
                          has_devices = h3.has_devices;
                        };
                        up = (refl, inl refl);
                      });
              })))

pub cleared-IsApplied :
    (m : Model) (generation : ℕ) (attachments : List (Text × List Text)) (rt : Runtime)
    → EndsIn
        (IsApplied m attachments generation)
        (apply_locked m generation attachments (clear_state rt))
cleared-IsApplied m generation attachments rt =
    let clear = clear_state-IsClear rt in
    apply_locked-IsApplied m generation attachments (clear_state rt) clear.clear_buses
      clear.clear_devices

pub persist-desynced :
    (rt : Runtime) → (persist_snapshot (set_state desynced rt)).runtime_state ≡ desynced
persist-desynced rt = elim (Persists-persist (set_state desynced rt)).state [
  | inl same ↦ same
  | inr (bad, r) ↦ bad
]
