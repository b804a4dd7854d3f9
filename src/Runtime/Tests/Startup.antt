-- ===== src/Runtime/Tests/Startup.antt =====
-- Runs of src/sensorium/runtime/state.py: a start with a snapshot of one bus, and a resync behind it.
use sensorium.Base.{◌≡◌, refl, true, List, [], ◌∷◌, Text, codes, pos, lookup, insert}
use sensorium.Runtime.{Runtime}
use sensorium.Normalize.Values.{Value, int, str, arr, obj, of_list, of_pairs}
use sensorium.Runtime.Resync.{resync_runtime}
use sensorium.Runtime.Resync.Outcome.{IsResynced, resync_settles}
use sensorium.Bridge.Protocol.{decimal, encode_c_string}
use sensorium.Normalize.Words.{strip, decimal_digits}
use sensorium.Normalize.Expect.{expect_string, expect_name, is_index}
use sensorium.Normalize.Items.{normalize_bus}
use sensorium.Normalize.{normalize_buses, normalize_devices, normalize_model}
use sensorium.Normalize.Spec.{model_of}
use sensorium.Runtime.Apply.{apply_model}
use sensorium.Runtime.Startup.{
  SnapshotFile, holding, read_snapshot, restore_snapshot_model, validate_snapshot, attach_restored,
  restore_snapshot_if_available,
}
use sensorium.Runtime.Startup.Outcome.{Started, restore_snapshot_lem}
use sensorium.Runtime.Tests.Lifecycle.{willing, with_bus}

abbrev dict : List (Value × Value) → Value
dict kvs = obj (of_pairs kvs)

abbrev main_bus : Value
main_bus = dict (
    (str (codes "id"), str (codes "main"))
    ∷ (str (codes "transport"), str (codes "i2c"))
    ∷ (str (codes "name"), str (codes "i2c-1"))
    ∷ [])

abbrev file : SnapshotFile
file = holding (
    dict (
      (str (codes "schema_version"), int (pos 2))
      ∷ (
        str (codes "model"),
        dict (
            (str (codes "name"), str (codes "bench"))
            ∷ (str (codes "adapter"), str (codes "runtime"))
            ∷ (
              str (codes "runtime"),
              dict ((str (codes "buses"), arr (of_list (main_bus ∷ []))) ∷ []),
            )
            ∷ []),
      )
      ∷ []))

abbrev show : Value → Text
show v = codes "?"

abbrev start : Runtime
start = record willing { snapshot_path = true }

restored_once : (restore_snapshot_if_available show true file start).0 ≡ true
unfolding restore_snapshot_if_available read_snapshot restore_snapshot_model normalize_model
    expect_string strip normalize_buses normalize_bus expect_name lookup insert is_index
    decimal_digits decimal normalize_devices validate_snapshot apply_model model_of encode_c_string
    attach_restored
restored_once = refl

restore_snapshot_lem_example :
    Started show start file (restore_snapshot_if_available show true file start)
restore_snapshot_lem_example = restore_snapshot_lem show true file start

resync_settles_example : IsResynced with_bus (resync_runtime with_bus)
resync_settles_example = resync_settles with_bus
