-- ===== src/Normalize/Restore/Devices.antt =====
-- src/sensorium/runtime/model_normalize.py over a device that src/sensorium/runtime/state.py exports.
use sensorium.Base.{
  ◌≡◌, refl, ap, sym, subst, ◌∙◌, arith, [], ◌++◌, Option, some, Text, codes, lookup, bytes_eq,
  append-nil,
}
use sensorium.Base.Result.{ok}
use sensorium.Normalize.Values.{null, str, obj, Fields, get, or_else, of_pairs}
use sensorium.Normalize.Words.{strip}
use sensorium.Normalize.Expect.{checked, expect_string, expect_name}
use sensorium.Normalize.Parts.{one_of, normalize_faults}
use sensorium.Normalize.Items.{
  BackendItem, by_template, by_controller, WorkerItem, normalize_backend, Place, i2c_place,
  spi_place, uart_place, normalize_place, transports, same_transport, DeviceItem, normalize_device,
}
use sensorium.Normalize.Export.{
  Entries, dict_value, backend_entries, place_script, transport_text, transport_of, fault_value,
  device_value,
}
use sensorium.Normalize.Restore.Texts.{expect_name_again}
use sensorium.Normalize.Restore.HexBytes.{AllBytes}
use sensorium.Normalize.Restore.Parts.{OptionOf, faults_restored}
use sensorium.Device.{Transport, i2c, spi, uart, Fault}
use sensorium.Runtime.Inventory.{BusSpec}
use sensorium.Normalize.{Buses}
use sensorium.Normalize.Unique.{same_transport_refl}
use sensorium.Normalize.Unique.Model.{DeviceRead, normalize_place-transport}
use sensorium.Normalize.Restore.Workers.{template_restored, controller_restored}
use sensorium.Normalize.Restore.Places.{PlaceBytes, item_of, place_restored}

-- a controller's device has no script
bare_place :
    (t : Transport) (name : Text) (w : Option WorkerItem) (fs item : Fields) (p : Place)
    → normalize_place t name (by_controller w) fs item ≡ ok p
    → place_script p ≡ []
unfolding normalize_place
bare_place i2c name w fs item p h = ground arith
bare_place spi name w fs item p h = ground arith
bare_place uart name w fs item p h = ground arith

pub transport_again : (t : Transport) → one_of transports (str (transport_text t)) ≡ ok t
unfolding expect_string strip lookup
transport_again i2c = refl
transport_again spi = refl
transport_again uart = refl

backend_restored :
    (t : Transport) (name : Text) (backend : BackendItem) (fs item : Fields) (p : Place)
    → normalize_backend fs ≡ ok backend
    → normalize_place t name backend fs item ≡ ok p
    → normalize_backend (of_pairs (backend_entries backend ++ place_script p)) ≡ ok backend
backend_restored t name (by_template kind) fs item p h hp = template_restored kind (place_script p)
backend_restored t name (by_controller w) fs item p h hp =
    ap (λ (r : Entries). normalize_backend (of_pairs (backend_entries (by_controller w) ++ r)))
      (bare_place t name w fs item p hp)
    ∙ (ap (λ (r : Entries). normalize_backend (of_pairs r))
          (append-nil (backend_entries (by_controller w)))
        ∙ controller_restored fs w h)

matching_transport : (t u : Transport) → t ≡ u → checked (same_transport t u) t ≡ ok t
matching_transport t u e =
    subst (λ x. checked (same_transport t x) t ≡ ok t) e (rw (same_transport_refl t) refl)

-- the byte strings of a device are bytes
pub record DeviceBytes (d : DeviceItem) : Type 0 where
  pub of_faults : OptionOf AllBytes d.faults.reply_data
  pub of_place : PlaceBytes d.place

module _ (buses : Buses) (id bus_id : Text) (bus : BusSpec) (backend : BackendItem)
    (metadata : Fields) (faults : Fault) (h_id : expect_name (str id) ≡ ok id)
    (h_bus : expect_name (str bus_id) ≡ ok bus_id) (h_on : lookup bytes_eq bus_id buses ≡ some bus)
    (h_faults : normalize_faults (fault_value faults) ≡ ok faults) where
  abbrev ItemOf : Place → Fields
  ItemOf p =
      item_of (str id) (str bus_id) (str (transport_text (transport_of p)))
        (dict_value (backend_entries backend ++ place_script p)) (obj metadata) (fault_value faults)
        p

  device_keys :
      (p : Place)
      → transport_of p ≡ bus.transport
      → normalize_backend (of_pairs (backend_entries backend ++ place_script p)) ≡ ok backend
      → normalize_place
          (transport_of p)
          bus.name
          backend
          (of_pairs (backend_entries backend ++ place_script p))
          (ItemOf p)
        ≡ ok p
      → normalize_device buses (
          device_value (record {
            id = id;
            bus = bus_id;
            backend = backend;
            metadata = metadata;
            faults = faults;
            place = p;
          }))
        ≡ ok (record {
          id = id;
          bus = bus_id;
          backend = backend;
          metadata = metadata;
          faults = faults;
          place = p;
        })
  unfolding normalize_device
  device_keys (i2c_place a s) ht hb hp =
      rw
        (
          h_id,
          h_bus,
          h_on,
          transport_again i2c,
          matching_transport i2c bus.transport ht,
          hb,
          h_faults,
          hp,
        )
        refl
  device_keys (spi_place c n st s) ht hb hp =
      rw
        (
          h_id,
          h_bus,
          h_on,
          transport_again spi,
          matching_transport spi bus.transport ht,
          hb,
          h_faults,
          hp,
        )
        refl
  device_keys (uart_place q st s) ht hb hp =
      rw
        (
          h_id,
          h_bus,
          h_on,
          transport_again uart,
          matching_transport uart bus.transport ht,
          hb,
          h_faults,
          hp,
        )
        refl

pub device_restored :
    (buses : Buses) (d : DeviceItem)
    → DeviceRead buses d
    → DeviceBytes d
    → normalize_device buses (device_value d) ≡ ok d
device_restored buses d r good =
    let same : transport_of d.place ≡ r.bus.transport =
      normalize_place-transport r.bus.transport r.bus.name d.backend r.fs r.item d.place
        r.place_read in
    device_keys buses d.id d.bus r.bus d.backend d.metadata d.faults
      (expect_name_again (or_else null (get (codes "id") r.item)) d.id r.id_read)
      (expect_name_again (or_else null (get (codes "bus") r.item)) d.bus r.bus_read) r.on_bus
      (faults_restored (or_else null (get (codes "faults") r.item)) d.faults r.faults_read
        good.of_faults)
      d.place same
      (backend_restored r.bus.transport r.bus.name d.backend r.fs r.item d.place r.backend_read
        r.place_read)
      (subst
        (λ t.
          normalize_place t r.bus.name d.backend
            (of_pairs (backend_entries d.backend ++ place_script d.place))
            (item_of (str d.id) (str d.bus) (str (transport_text (transport_of d.place)))
              (dict_value (backend_entries d.backend ++ place_script d.place)) (obj d.metadata)
              (fault_value d.faults) d.place)
          ≡ ok d.place)
        (sym same)
        (place_restored r.bus.name (str d.id) (str d.bus)
          (str (transport_text (transport_of d.place)))
          (dict_value (backend_entries d.backend ++ place_script d.place)) (obj d.metadata)
          (fault_value d.faults) r.bus.transport d.backend r.fs r.item d.place r.place_read
          good.of_place))
