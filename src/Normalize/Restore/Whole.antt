-- ===== src/Normalize/Restore/Whole.antt =====
-- src/sensorium/runtime/model.py over the model that src/sensorium/runtime/state.py exports.
use sensorium.Base.{◌≡◌, refl, ap, List, [], ◌∷◌, map, Text, codes, bytes_eq, AllOf, AllOf-map}
use sensorium.Base.Result.{ok, Ensures, Ensures-ok, Ensures-bind, Ensures-elim}
use sensorium.Normalize.Values.{
  Value, null, str, Fields, end, get, or_else, to_list, expect_mapping, expect_list,
}
use sensorium.Normalize.Words.{strip}
use sensorium.Normalize.Expect.{
  checked, expect_string, expect_name, is_i2c_bus_name, is_spi_bus_name,
}
use sensorium.Normalize.Parts.{one_of}
use sensorium.Normalize.Export.{dict_value, bus_value, device_value, model_entries}
use sensorium.Normalize.Restore.Texts.{expect_string_again, expect_name_again, text_where_again}
use sensorium.Normalize.Restore.Scripts.{to_list-of_list}
use sensorium.Device.{Transport, i2c, spi, uart}
use sensorium.Runtime.Inventory.{BusSpec}
use sensorium.Normalize.Items.{
  transports, expect_bus_name, normalize_bus, DeviceItem, normalize_device,
}
use sensorium.Normalize.{
  Buses, normalize_buses, normalize_devices, expect_schema_version, ModelItem, metadata_of,
  normalize_model,
}
use sensorium.Normalize.Unique.Model.{DeviceRead, normalize_device-Read}
use sensorium.Normalize.Restore.Loops.{
  BusesRead, normalize_buses-Read, normalize_buses_again, DevicesRead, normalize_devices-Read,
  normalize_devices_again,
}
use sensorium.Normalize.Restore.Devices.{DeviceBytes, transport_again, device_restored}

abbrev BusAgain : BusSpec → Type 0
BusAgain b = normalize_bus (bus_value b) ≡ ok b

bus_name_again :
    (t : Transport) (v : Value) (n : Text)
    → expect_bus_name t v ≡ ok n
    → expect_bus_name t (str n) ≡ ok n
bus_name_again i2c v n h = text_where_again is_i2c_bus_name v n h
bus_name_again spi v n h = text_where_again is_spi_bus_name v n h
bus_name_again uart v n h = expect_name_again v n h

bus_keys :
    (id n : Text) (t : Transport)
    → expect_name (str id) ≡ ok id
    → expect_bus_name t (str n) ≡ ok n
    → BusAgain (record { id = id; transport = t; name = n })
unfolding normalize_bus
bus_keys id n t hi hn = rw (hi, transport_again t, hn) refl

bus_again : (v : Value) → Ensures BusAgain (normalize_bus v)
unfolding normalize_bus
bus_again v = Ensures-bind BusAgain (expect_mapping v) _ (λ item e0.
    Ensures-bind BusAgain (expect_name (or_else null (get (codes "id") item))) _ (λ id e1.
      Ensures-bind BusAgain (one_of transports (or_else null (get (codes "transport") item))) _
        (λ t e2.
          Ensures-bind BusAgain (expect_bus_name t (or_else null (get (codes "name") item))) _
            (λ n e3.
              Ensures-bind BusAgain (expect_mapping (or_else null (get (codes "metadata") item))) _
                (λ meta e4. Ensures-ok BusAgain (
                  bus_keys id n t (expect_name_again (or_else null (get (codes "id") item)) id e1)
                    (bus_name_again t (or_else null (get (codes "name") item)) n e3)))))))

runtime_name : expect_string (str (codes "runtime")) ≡ ok (codes "runtime")
unfolding expect_string strip
runtime_name = refl

-- what a normalized model keeps for its export
record Restorable (m : ModelItem) : Type 0 where
  of_name : expect_string (str m.name) ≡ ok m.name
  of_buses : BusesRead BusAgain m.buses
  of_devices : DevicesRead (DeviceRead m.buses) m.devices

model_again : (v : Value) → Ensures Restorable (normalize_model v)
unfolding normalize_model
model_again v = Ensures-bind Restorable (expect_mapping v) _ (λ raw e0.
    Ensures-bind Restorable (expect_string (or_else null (get (codes "name") raw))) _ (λ name e1.
      Ensures-bind Restorable (expect_string (or_else null (get (codes "adapter") raw))) _
        (λ adapter e2.
          Ensures-bind Restorable (checked (bytes_eq adapter (codes "runtime")) adapter) _
            (λ adapter' e3.
              Ensures-bind Restorable
                (expect_schema_version (or_else null (get (codes "schema_version") raw))) _
                (λ version e4.
                  Ensures-bind Restorable
                    (expect_mapping (or_else null (get (codes "runtime") raw))) _
                    (λ runtime e5.
                      Ensures-bind Restorable
                        (expect_list (or_else null (get (codes "buses") runtime))) _
                        (λ buses_raw e6.
                          Ensures-bind Restorable
                            (expect_list (or_else null (get (codes "devices") runtime))) _
                            (λ devices_raw e7.
                              Ensures-bind Restorable (normalize_buses [] (to_list buses_raw)) _
                                (λ buses e8.
                                  Ensures-bind Restorable
                                    (normalize_devices buses [] (to_list devices_raw)) _
                                    (λ devices e9. Ensures-ok Restorable (record {
                                      of_name =
                                          expect_string_again
                                            (or_else null (get (codes "name") raw)) name e1;
                                      of_buses =
                                          Ensures-elim (BusesRead BusAgain)
                                            (normalize_buses [] (to_list buses_raw)) buses
                                            (normalize_buses-Read BusAgain [] (to_list buses_raw)
                                              (λ x b h.
                                                Ensures-elim BusAgain (normalize_bus x) b
                                                  (bus_again x) h)
                                              (record { entries_read = tt; accepted = tt }))
                                            e8;
                                      of_devices =
                                          Ensures-elim (DevicesRead (DeviceRead buses))
                                            (normalize_devices buses [] (to_list devices_raw))
                                            devices
                                            (normalize_devices-Read (DeviceRead buses) buses []
                                              (to_list devices_raw)
                                              (λ x d h.
                                                Ensures-elim (DeviceRead buses)
                                                  (normalize_device buses x) d
                                                  (normalize_device-Read buses x) h)
                                              (record { items_read = tt; accepted = tt }))
                                            e9;
                                    })))))))))))

both :
    {A : Type 0} (P Q : A → Type 0) (xs : List A)
    → AllOf P xs
    → AllOf Q xs
    → AllOf (λ x. P x × Q x) xs
both P Q [] p q = tt
both P Q (x ∷ xs) p q = ((p.0, q.0), both P Q xs p.1 q.1)

-- the value of the exported model
abbrev pub model_value : ModelItem → Value
model_value m =
    dict_value (model_entries m.name (map (λ (p : Text × BusSpec). p.1) m.buses) m.devices)

-- a model as its export has it: the buses have no metadata
abbrev pub exported : ModelItem → ModelItem
exported m = record m { bus_metadata = map (λ (p : Text × BusSpec). end) m.buses }

no_metadata :
    (buses : Buses)
    → map metadata_of (map bus_value (map (λ (p : Text × BusSpec). p.1) buses))
      ≡ map (λ (p : Text × BusSpec). end) buses
no_metadata [] = refl
no_metadata (b ∷ buses) = ap (λ ms. end ∷ ms) (no_metadata buses)

module _ (name : Text) (buses : Buses) (metadata : List Fields) (devices : List DeviceItem) where
  abbrev whole : ModelItem
  whole = record { name = name; buses = buses; bus_metadata = metadata; devices = devices }

  restored_keys :
      expect_string (str name) ≡ ok name
      → normalize_buses [] (map bus_value (map (λ (p : Text × BusSpec). p.1) buses)) ≡ ok buses
      → normalize_devices buses [] (map device_value devices) ≡ ok devices
      → normalize_model (model_value whole) ≡ ok (exported whole)
  unfolding normalize_model
  restored_keys hn hb hd =
      rw
        (
          hn,
          runtime_name,
          to_list-of_list (map bus_value (map (λ (p : Text × BusSpec). p.1) buses)),
          to_list-of_list (map device_value devices),
          hb,
          hd,
          no_metadata buses,
        )
        refl

-- A model that was accepted, and whose byte strings hold bytes, is exported to a value that is accepted again, with the same
-- result but for the metadata of the buses, which the export leaves out.
pub model_restored :
    (v : Value) (m : ModelItem)
    → normalize_model v ≡ ok m
    → AllOf DeviceBytes m.devices
    → normalize_model (model_value m) ≡ ok (exported m)
model_restored v m h good =
    let r = Ensures-elim Restorable (normalize_model v) m (model_again v) h in
    restored_keys m.name m.buses m.bus_metadata m.devices r.of_name
      (normalize_buses_again bus_value [] m.buses r.of_buses.entries_read r.of_buses.accepted)
      (normalize_devices_again device_value m.buses [] m.devices
        (AllOf-map (λ d. DeviceRead m.buses d × DeviceBytes d)
          (λ d. normalize_device m.buses (device_value d) ≡ ok d) m.devices
          (λ d p. device_restored m.buses d p.0 p.1)
          (both (DeviceRead m.buses) DeviceBytes m.devices r.of_devices.items_read good))
        r.of_devices.accepted)
