-- ===== src/Runtime/Startup/Outcome.antt =====
-- src/sensorium/runtime/state.py: what restore_snapshot_if_available leaves.
use sensorium.Base.{
  ℕ, ◌+◌, ◌≡◌, refl, ◌⊎◌, inl, inr, Bool, true, false, List, [], ◌∷◌, Option, some, Text, codes,
  if-both, Option-cases, lookup, bytes_eq,
}
use sensorium.Base.Result.{
  Result, ok, raise, Result-cases, Ensures, Ensures-ok, Ensures-bind, Ensures-raise, runtime_error,
  Ensures-elim, Ensures-of,
}
use sensorium.Device.{Device}
use sensorium.Runtime.{Runtime}
use sensorium.Runtime.Backends.{
  attach_backend, attach_backend_locked, validate_attach, set_attached, with_queue, persisted,
  guarded, assert_mutation_allowed,
}
use sensorium.Runtime.Requests.{modify_device}
use sensorium.Runtime.Inventory.Ends.{EndsIn, EndsIn-then}
use sensorium.Runtime.Apply.{apply_model}
use sensorium.Runtime.Inventory.{Model}
use sensorium.Runtime.Apply.Tables.{Placed, devices_of, attach_ids, attached_of}
use sensorium.Runtime.Apply.Attached.{set_attached-Holds}
use sensorium.Runtime.Apply.Placing.{IsUp, InPlace, InPlace-persist, IsApplied}
use sensorium.Runtime.Apply.Outcome.{IsSettled, apply_model_settles}
use sensorium.Normalize.Values.{Value, obj, null, Fields, get, or_else, pairs, expect_mapping}
use sensorium.Normalize.{ModelItem, normalize_model}
use sensorium.Normalize.Unique.{IsSound}
use sensorium.Normalize.Unique.Model.{normalize_model_lem}
use sensorium.Normalize.Spec.{model_of}
use sensorium.Runtime.Startup.{
  SnapshotFile, absent, unreadable, holding, fields_of, is_version, validate_snapshot,
  restore_snapshot_model, read_snapshot, attach_restored, restore_read, restored, restore_file,
  restore_snapshot_if_available,
}

-- attaching leaves a generation up
modify-IsUp :
    (g : ℕ) (id : Text) (f : Device → Device) (rt : Runtime)
    → IsUp g rt
    → IsUp g (modify_device id f rt)
unfolding modify_device
modify-IsUp g id f rt h = elim (Option-cases (lookup bytes_eq id rt.devices)) [
  | inl e ↦ rw (e, modify_device) h
  | inr (d, e) ↦ rw (e, modify_device) h
]

set_attached-IsUp :
    (g : ℕ) (backend : Option Text) (ids : List Text) (rt : Runtime)
    → IsUp g rt
    → IsUp g (set_attached backend ids rt)
unfolding set_attached
set_attached-IsUp g backend [] rt h = h
set_attached-IsUp g backend (id ∷ ids) rt h =
    set_attached-IsUp g backend ids
      (modify_device id (λ d. record d { attached_backend = backend }) rt)
      (modify-IsUp g id (λ d. record d { attached_backend = backend }) rt h)

module _ (m : Model) (g : ℕ) where
  with_queue-InPlace :
      (backend_id : Text) (ds : List (Text × Placed)) (rt : Runtime)
      → InPlace m ds g rt
      → InPlace m ds g (with_queue backend_id rt)
  unfolding with_queue
  with_queue-InPlace backend_id ds rt h = record {
    tables = record {
      named = h.tables.named;
      has_buses = h.tables.has_buses;
      has_devices = h.tables.has_devices;
    };
    up = h.up;
  }

  locked-InPlace :
      (backend_id : Text) (ids : List Text) (ds : List (Text × Placed)) (rt : Runtime)
      → InPlace m ds g rt
      → EndsIn
          (InPlace m (attach_ids backend_id ids ds) g)
          (attach_backend_locked backend_id ids rt)
  unfolding attach_backend_locked
  locked-InPlace backend_id ids ds rt h =
      let queued = with_queue backend_id rt in
      let there = with_queue-InPlace backend_id ds rt h in
      elim (Result-cases (validate_attach ids queued)) [
        | inl (a, e) ↦
            rw (e, attach_backend_locked)
              (record {
                here = record {
                  tables = set_attached-Holds m.name _ backend_id ids ds queued there.tables;
                  up = set_attached-IsUp g (some backend_id) ids queued there.up;
                };
              })
        | inr (err, e) ↦ rw (e, attach_backend_locked) (record { here = tt })
      ]

  persisted-InPlace :
      (ds : List (Text × Placed)) (x : Result ℕ × Runtime)
      → EndsIn (InPlace m ds g) x
      → EndsIn (InPlace m ds g) (persisted x)
  persisted-InPlace ds (ok n, rt) h = record { here = InPlace-persist m ds g rt h.here }
  persisted-InPlace ds (raise e, rt) h = record { here = tt }

  attached-InPlace :
      (backend_id : Text) (ids : List Text) (ds : List (Text × Placed)) (rt : Runtime)
      → InPlace m ds g rt
      → EndsIn (InPlace m (attach_ids backend_id ids ds) g) (attach_backend backend_id ids rt)
  unfolding attach_backend
  attached-InPlace backend_id ids ds rt h = elim (Result-cases (assert_mutation_allowed rt)) [
    | inl (a, e) ↦
        rw (e, attach_backend, guarded)
          (persisted-InPlace (attach_ids backend_id ids ds) _
            (locked-InPlace backend_id ids ds rt h))
    | inr (err, e) ↦ rw (e, attach_backend, guarded) (record { here = tt })
  ]

restore_snapshot_model-Sound : (fs : Fields) → Ensures IsSound (restore_snapshot_model fs)
unfolding restore_snapshot_model
restore_snapshot_model-Sound fs =
    if-both (Ensures IsSound) (is_version (or_else null (get (codes "schema_version") fs))) _ _
      (λ _.
        Ensures-bind IsSound (expect_mapping (or_else null (get (codes "model") fs))) _ (λ model e.
          Ensures-of IsSound (normalize_model (obj model))
            (λ m h. normalize_model_lem (obj model) m h)))
      (λ _. Ensures-raise IsSound runtime_error)

-- what `read_snapshot` gives
abbrev pub Accepted : Type 0
Accepted = ModelItem × List (Text × List Text)

module _ (show : Value → Text) where
  attach_restored-InPlace :
      (m : Model) (g : ℕ) (attachments : List (Text × List Text)) (ds : List (Text × Placed))
      (rt : Runtime)
      → InPlace m ds g rt
      → EndsIn (InPlace m (attached_of attachments ds) g) (attach_restored show attachments rt)
  unfolding attach_restored attached_of attach_ids
  attach_restored-InPlace m g [] ds rt h = record { here = h }
  attach_restored-InPlace m g ((backend_id, []) ∷ rest) ds rt h =
      attach_restored-InPlace m g rest ds rt h
  attach_restored-InPlace m g ((backend_id, id ∷ ids) ∷ rest) ds rt h =
      let more = attach_ids backend_id (id ∷ ids) ds in
      EndsIn-then (InPlace m more g) (InPlace m (attached_of rest more) g)
        (attach_backend backend_id (id ∷ ids) rt) _
        (attached-InPlace m g backend_id (id ∷ ids) ds rt h)
        (λ _ rt' h'. attach_restored-InPlace m g rest more rt' h')

  -- a snapshot that was taken up
  pub record IsRestored (rt : Runtime) (file : SnapshotFile) (rt' : Runtime) : Type 0 where
    pub snapshot : Value
    pub model : ModelItem
    pub attachments : List (Text × List Text)
    pub held : file ≡ holding snapshot
    pub read : read_snapshot show snapshot ≡ ok (model, attachments)
    pub sound : IsSound model
    pub applied : IsApplied (model_of model) attachments (rt.generation + 1) rt'
    pub loaded : rt'.persistence.snapshot_loaded ≡ true
    pub without_error : rt'.persistence.snapshot_failed ≡ false

  -- what a start leaves: the snapshot is restored, or the state stays as it is, or the error is noted
  abbrev pub Started : Runtime → SnapshotFile → Bool × Runtime → Type 0
  Started rt file (true, rt') = IsRestored rt file rt'
  Started rt file (false, rt') =
      (rt' ≡ rt)
      ⊎ ((rt'.persistence.snapshot_failed ≡ true) × (rt'.persistence.snapshot_loaded ≡ false))

  read_snapshot-Sound : (v : Value) → Ensures (λ (x : Accepted). IsSound x.0) (read_snapshot show v)
  unfolding read_snapshot
  read_snapshot-Sound v =
      Ensures-bind (λ (x : Accepted). IsSound x.0) (fields_of v) _
        (λ fs e0.
          Ensures-bind (λ (x : Accepted). IsSound x.0) (restore_snapshot_model fs) _
            (λ m e1.
              Ensures-bind (λ (x : Accepted). IsSound x.0)
                (expect_mapping (or_else null (get (codes "backend_attachments") fs))) _
                (λ attachments e2.
                  Ensures-bind (λ (x : Accepted). IsSound x.0)
                    (validate_snapshot show m.devices [] [] (pairs attachments)) _
                    (λ validated e3.
                      Ensures-ok (λ (x : Accepted). IsSound x.0)
                        (Ensures-elim IsSound (restore_snapshot_model fs) m
                          (restore_snapshot_model-Sound fs) e1)))))

  restored-Started :
      (rt : Runtime) (v : Value) (m : ModelItem) (attachments : List (Text × List Text))
      (x : Result (Unit {0}) × Runtime)
      → read_snapshot show v ≡ ok (m, attachments)
      → IsSound m
      → EndsIn (IsApplied (model_of m) attachments (rt.generation + 1)) x
      → Started rt (holding v) (restored show x)
  restored-Started rt v m attachments (ok _, rt') read sound h = record {
    snapshot = v;
    model = m;
    attachments = attachments;
    held = refl;
    read = read;
    sound = sound;
    applied = record {
      tables = record {
        named = h.here.tables.named;
        has_buses = h.here.tables.has_buses;
        has_devices = h.here.tables.has_devices;
      };
      up = h.here.up;
    };
    loaded = refl;
    without_error = refl;
  }
  restored-Started rt v m attachments (raise e, rt') read sound h = inr (refl, refl)

  settled-IsApplied :
      (m : Model) (was : Runtime) (x : Result (Unit {0}) × Runtime)
      → IsSettled m was x
      → EndsIn (IsApplied m [] (was.generation + 1)) x
  settled-IsApplied m was (ok _, rt) h = record { here = h }
  settled-IsApplied m was (raise e, rt) h = record { here = tt }

  restore_read-Started :
      (rt : Runtime) (v : Value)
      → Started rt (holding v) (restored show (restore_read show (read_snapshot show v) rt))
  unfolding attached_of
  restore_read-Started rt v = elim (Result-cases (read_snapshot show v)) [
    | inr (err, e) ↦ rw e (inr (refl, refl))
    | inl ((m, attachments), e) ↦ rw e (
        restored-Started rt v m attachments _ e
          (Ensures-elim (λ (y : Accepted). IsSound y.0) (read_snapshot show v) (m, attachments)
            (read_snapshot-Sound v) e)
          (EndsIn-then (IsApplied (model_of m) [] (rt.generation + 1))
            (IsApplied (model_of m) attachments (rt.generation + 1)) (apply_model (model_of m) rt) _
            (settled-IsApplied (model_of m) rt _ (apply_model_settles (model_of m) rt))
            (λ _ rt' h'.
              attach_restored-InPlace (model_of m) (rt.generation + 1) attachments
                (devices_of (model_of m).devices []) rt' h')))
  ]

  restore_file-Started :
      (rt : Runtime) (file : SnapshotFile) → Started rt file (restore_file show file rt)
  restore_file-Started rt absent = inl refl
  restore_file-Started rt unreadable = inr (refl, refl)
  restore_file-Started rt (holding v) = restore_read-Started rt v

  -- A start that takes up a snapshot has read it from the file, with a model that is sound, and the daemon has
  -- exactly this model's buses and devices, attached as the snapshot says, under the next generation, and is `ready` unless the
  -- kernel reports a desync; and no error is noted. One that takes up none leaves the daemon as it is, or notes the
  -- error; it never raises.
  pub restore_snapshot_lem :
      (enabled : Bool) (file : SnapshotFile) (rt : Runtime)
      → Started rt file (restore_snapshot_if_available show enabled file rt)
  unfolding restore_snapshot_if_available
  restore_snapshot_lem false file rt = inl refl
  restore_snapshot_lem true file rt =
      if-both (Started rt file) rt.snapshot_path _ _ (λ _. restore_file-Started rt file)
        (λ _. inl refl)
