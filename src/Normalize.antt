-- ===== src/Normalize.antt =====
-- src/sensorium/runtime/model.py, model_base.py and model_normalize.py: the validation of a runtime model, from a
-- value that YAML or JSON gave to typed buses and devices. Each check that fails is a RuntimeModelError.
pub mod Values
pub mod Words
pub mod Expect
pub mod Parts
pub mod Items
pub mod Export
pub mod Unique
pub mod Restore
pub mod Spec
mod Tests
use sensorium.Base.{
  ℕ, Bool, true, false, ◌&&◌, ◌||◌, List, [], ◌∷◌, ◌++◌, map, Option, none, some, if◌then◌else◌,
  Text, codes, lookup, bytes_eq, ◌==◌, pos, int_eq,
}
use sensorium.Base.Result.{Result, ok, raise, runtime_error, ◌>>=◌}
use sensorium.Device.{Transport, i2c, spi, uart}
use sensorium.Runtime.Inventory.{BusSpec}
use sensorium.Normalize.Values.{
  Value, null, other, bool, int, str, blob, arr, obj, Fields, end, get, or_else, to_list,
  expect_mapping, expect_list, expect_int,
}
use sensorium.Normalize.Expect.{checked, expect_string}
use sensorium.Normalize.Items.{
  same_transport, normalize_bus, DeviceItem, Place, i2c_place, spi_place, uart_place,
  normalize_device,
}

-- `buses_by_id`, whose values are `buses`
abbrev pub Buses : Type 0
Buses = List (Text × BusSpec)

-- `bus["name"] in bus_names_by_transport[bus["transport"]]`
abbrev pub name_taken : Transport → Text → Buses → Bool
name_taken t name [] = false
name_taken t name ((id, b) ∷ bs) =
    (same_transport t b.transport && bytes_eq b.name name) || name_taken t name bs

abbrev pub bus_refused : BusSpec → Buses → Bool
bus_refused b bs = elim (lookup bytes_eq b.id bs) [
  | none ↦ name_taken b.transport b.name bs
  | some other_bus ↦ true
]

abbrev pub refuse_if {ℓ} : {A : Type ℓ} → Bool → A → Result A
refuse_if true a = raise runtime_error
refuse_if false a = ok a

-- the loop over `buses_raw`
unfoldable pub normalize_buses : Buses → List Value → Result Buses
normalize_buses bs [] = ok bs
normalize_buses bs (v ∷ vs) = do
  b ← normalize_bus v
  fresh ← refuse_if (bus_refused b bs) b
  normalize_buses (bs ++ (fresh.id, fresh) ∷ []) vs

-- a place that only one device may take; `uart_ports` has the ports of all buses
abbrev pub same_spot : Text → Place → Text → Place → Bool
same_spot b (i2c_place a script) b' (i2c_place a' script') = bytes_eq b b' && a == a'
same_spot b (spi_place c name s script) b' (spi_place c' name' s' script') =
    bytes_eq b b' && c == c'
same_spot b (uart_place p s script) b' (uart_place p' s' script') = bytes_eq p p'
same_spot b _ b' _ = false

abbrev pub same_place : DeviceItem → DeviceItem → Bool
same_place d e = same_spot d.bus d.place e.bus e.place

-- the id or the place is one of a device before
abbrev pub device_refused : DeviceItem → List DeviceItem → Bool
device_refused d [] = false
device_refused d (e ∷ es) = (bytes_eq e.id d.id || same_place e d) || device_refused d es

-- the loop over `devices_raw`
unfoldable pub normalize_devices : Buses → List DeviceItem → List Value → Result (List DeviceItem)
normalize_devices buses ds [] = ok ds
normalize_devices buses ds (v ∷ vs) = do
  d ← normalize_device buses v
  fresh ← refuse_if (device_refused d ds) d
  normalize_devices buses (ds ++ fresh ∷ []) vs

-- `normalize_runtime_schema_version`
abbrev pub expect_schema_version : Value → Result (Unit {0})
expect_schema_version null = ok tt
expect_schema_version v = expect_int v >>= λ n. checked (int_eq n (pos 2)) tt

-- `bus["metadata"]` of a bus that is accepted
abbrev fields_or_end : Result Fields → Fields
fields_or_end (ok fs) = fs
fields_or_end (raise e) = end

abbrev pub metadata_of : Value → Fields
metadata_of (obj item) = fields_or_end (expect_mapping (or_else null (get (codes "metadata") item)))
metadata_of _ = end

-- a normalized model, with the metadata of its buses in their order; its schema version is 2, and its adapter `runtime`
pub record ModelItem : Type 0 where
  pub name : Text
  pub buses : Buses
  pub bus_metadata : List Fields
  pub devices : List DeviceItem

-- `normalize_runtime_model_data`
unfoldable pub normalize_model : Value → Result ModelItem
normalize_model v = do
  raw ← expect_mapping v
  name ← expect_string (or_else null (get (codes "name") raw))
  adapter ← expect_string (or_else null (get (codes "adapter") raw))
  runtime_adapter ← checked (bytes_eq adapter (codes "runtime")) adapter
  schema ← expect_schema_version (or_else null (get (codes "schema_version") raw))
  runtime ← expect_mapping (or_else null (get (codes "runtime") raw))
  buses_raw ← expect_list (or_else null (get (codes "buses") runtime))
  devices_raw ← expect_list (or_else null (get (codes "devices") runtime))
  buses ← normalize_buses [] (to_list buses_raw)
  devices ← normalize_devices buses [] (to_list devices_raw)
  ok (record {
    name = name;
    buses = buses;
    bus_metadata = map metadata_of (to_list buses_raw);
    devices = devices;
  })
