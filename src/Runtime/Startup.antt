-- ===== src/Runtime/Startup.antt =====
-- src/sensorium/runtime/state.py, `restore_snapshot_if_available`: what the daemon takes up again when it starts.
pub mod Outcome
use sensorium.Base.{
  ℕ, Bool, true, false, List, [], ◌∷◌, ◌++◌, Option, none, some, if◌then◌else◌, Text, codes, lookup,
  insert, bytes_eq, int_eq, pos,
}
use sensorium.Base.Result.{
  Result, ok, raise, runtime_error, value_error, attribute_error, ◌>>=◌, ◌>>◌,
}
use sensorium.Runtime.{Runtime, Persistence, Action}
use sensorium.Runtime.Backends.{attach_backend}
use sensorium.Runtime.Inventory.{◌and_then◌}
use sensorium.Runtime.Apply.{apply_model}
use sensorium.Normalize.Values.{
  Value, null, int, str, arr, obj, Fields, get, or_else, pairs, to_list, expect_mapping,
}
use sensorium.Normalize.Items.{DeviceItem, BackendItem, by_template, by_controller}
use sensorium.Normalize.{ModelItem, normalize_model}
use sensorium.Normalize.Spec.{model_of}

-- the snapshot file: not there, not JSON, or a value
pub data SnapshotFile : Type 0 where
  absent unreadable : SnapshotFile
  holding : Value → SnapshotFile

-- `value != RUNTIME_SNAPSHOT_SCHEMA_VERSION`, the other way round
abbrev pub is_version : Value → Bool
is_version (int n) = int_eq n (pos 2)
is_version _ = false

abbrev pub fields_of : Value → Result Fields
fields_of (obj fs) = ok fs
fields_of _ = raise attribute_error

-- `_restore_snapshot_model`
unfoldable pub restore_snapshot_model : Fields → Result ModelItem
restore_snapshot_model snapshot =
    if is_version (or_else null (get (codes "schema_version") snapshot))
    then expect_mapping (or_else null (get (codes "model") snapshot))
      >>= (λ model. normalize_model (obj model))
    else raise runtime_error

-- `devices_by_id.get(device_id)`; the ids of an accepted model differ
abbrev pub find_item : Text → List DeviceItem → Option DeviceItem
find_item id [] = none
find_item id (d ∷ ds) = if bytes_eq d.id id then some d else find_item id ds

-- a device that an external backend may be attached to
abbrev pub external : Option DeviceItem → Result (Unit {0})
external none = raise runtime_error
external (some d) = elim d.backend [
  | by_template kind ↦ raise runtime_error
  | by_controller worker ↦ elim worker [ none ↦ ok tt | some w ↦ raise runtime_error ]
]

-- `attached_by_backend`, with one device more
abbrev pub claim : Text → Text → List (Text × Text) → Result (List (Text × Text))
claim backend_id id taken = elim (lookup bytes_eq id taken) [
  | none ↦ ok (insert bytes_eq id backend_id taken)
  | some previous ↦
      if bytes_eq previous backend_id
      then ok (insert bytes_eq id backend_id taken)
      else raise runtime_error
]

-- `str(_)` of a value that is not a text is `show`
module _ (show : Value → Text) where
  abbrev pub text_of : Value → Text
  text_of (str t) = t
  text_of v = show v

  -- the loop over the devices of one backend
  unfoldable pub validate_ids :
      List DeviceItem
      → Text
      → List (Text × Text)
      → List Value
      → Result (List (Text × Text) × List Text)
  validate_ids devices backend_id claimed [] = ok (claimed, [])
  validate_ids devices backend_id claimed (v ∷ vs) = do
    allowed ← external (find_item (text_of v) devices)
    more ← claim backend_id (text_of v) claimed
    rest ← validate_ids devices backend_id more vs
    ok (rest.0, text_of v ∷ rest.1)

  abbrev expect_ids : Value → Result (List Value)
  expect_ids (arr vs) = ok (to_list vs)
  expect_ids _ = raise runtime_error

  -- `_validate_backend_attachments_for_devices`
  unfoldable pub validate_snapshot :
      List DeviceItem
      → List (Text × Text)
      → List (Text × List Text)
      → List (Value × Value)
      → Result (List (Text × List Text))
  validate_snapshot devices claimed acc [] = ok acc
  validate_snapshot devices claimed acc ((k, v) ∷ rest) = do
    vs ← expect_ids v
    ids ← validate_ids devices (text_of k) claimed vs
    validate_snapshot devices ids.0 (insert bytes_eq (text_of k) ids.1 acc) rest

  -- the model and the attachments of a snapshot
  unfoldable pub read_snapshot : Value → Result (ModelItem × List (Text × List Text))
  read_snapshot v = do
    snapshot ← fields_of v
    model ← restore_snapshot_model snapshot
    attachments ← expect_mapping (or_else null (get (codes "backend_attachments") snapshot))
    validated ← validate_snapshot model.devices [] [] (pairs attachments)
    ok (model, validated)

  unfoldable pub attach_restored : List (Text × List Text) → Action (Unit {0})
  attach_restored [] rt = (ok tt, rt)
  attach_restored ((backend_id, []) ∷ rest) rt = attach_restored rest rt
  attach_restored ((backend_id, id ∷ ids) ∷ rest) rt =
      attach_backend backend_id (id ∷ ids) rt and_then λ _ rt'. attach_restored rest rt'

  -- what `_restore` does with a snapshot that was read
  abbrev pub restore_read : Result (ModelItem × List (Text × List Text)) → Action (Unit {0})
  restore_read (raise e) rt = (raise e, rt)
  restore_read (ok (model, attachments)) rt =
      apply_model (model_of model) rt and_then λ _ rt'. attach_restored attachments rt'

  -- the end of the `try` block, or the `except` block; the file of an older version is unlinked as well
  abbrev pub restored : Result (Unit {0}) × Runtime → Bool × Runtime
  restored (ok _, rt) =
      let p : Persistence = record (rt.persistence) {
        snapshot_loaded = true;
        snapshot_failed = false;
      } in
      (true, record rt { persistence = p })
  restored (raise e, rt) =
      let p : Persistence = record (rt.persistence) {
        snapshot_loaded = false;
        snapshot_failed = true;
      } in
      (false, record rt { persistence = p })

  abbrev pub restore_file : SnapshotFile → Runtime → Bool × Runtime
  restore_file absent rt = (false, rt)
  restore_file unreadable rt = restored (raise value_error, rt)
  restore_file (holding v) rt = restored (restore_read (read_snapshot v) rt)

  -- `restore_snapshot_if_available`
  unfoldable pub restore_snapshot_if_available : Bool → SnapshotFile → Runtime → Bool × Runtime
  restore_snapshot_if_available enabled file rt =
      if enabled
      then if rt.snapshot_path then restore_file file rt else (false, rt)
      else (false, rt)
