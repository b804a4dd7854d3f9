-- ===== src/Normalize/Unique/Model.antt =====
-- src/sensorium/runtime/model.py: the checks that a device passes, and a whole model.
use sensorium.Base.{
  ◌≡◌, refl, ◌∙◌, subst, arith, Bool, true, false, ◌||◌, List, [], ◌∷◌, ◌++◌, Option, none, some,
  Text, codes, sym, lookup, bytes_eq, bytes_eq_iff, or_false, AllOf, AllOf-concat, AllOf-map,
}
use sensorium.Base.Result.{ok, Ensures, Ensures-ok, Ensures-bind, Ensures-elim}
use sensorium.Device.{Transport, i2c, spi, uart}
use sensorium.Runtime.Inventory.{BusSpec}
use sensorium.Normalize.Values.{
  Value, null, Fields, get, or_else, to_list, expect_mapping, expect_list,
}
use sensorium.Normalize.Expect.{checked, found, expect_name, expect_string}
use sensorium.Normalize.Parts.{one_of, normalize_faults}
use sensorium.Normalize.Items.{
  same_transport, normalize_backend, transports, BackendItem, DeviceItem, Place, normalize_place,
  normalize_device,
}
use sensorium.Normalize.Export.{transport_of}
use sensorium.Normalize.{
  Buses, refuse_if, normalize_buses, same_place, device_refused, normalize_devices,
  expect_schema_version, ModelItem, normalize_model,
}
use sensorium.Normalize.Unique.{
  Pairwise, Pairwise-concat, DevicesDiffer, OnBus, IsSound, BusesDiffer, same_transport_iff,
  same_spot_iff, refuse_if_iff, normalize_buses-Differ,
}

device_refused-Differ :
    (d : DeviceItem) (es : List DeviceItem)
    → device_refused d es ≡ false
    → AllOf (λ e. DevicesDiffer e d) es
device_refused-Differ d [] h = tt
device_refused-Differ d (e ∷ es) h =
    let free = or_false (bytes_eq e.id d.id || same_place e d) (device_refused d es) h in
    let apart = or_false (bytes_eq e.id d.id) (same_place e d) free.0 in
    (
      (
        (λ q. let q' : bytes_eq e.id d.id ≡ true = (bytes_eq_iff e.id d.id).1 q in cc),
        (λ q. let q' : same_place e d ≡ true = same_spot_iff e.bus e.place d.bus d.place q in cc),
      ),
      device_refused-Differ d es free.1,
    )

pub found_iff : {A : Type 0} (o : Option A) (a : A) → found o ≡ ok a → o ≡ some a
found_iff none a h = absurd (ground arith)
found_iff (some b) a h = ground arith

checked_iff : {A : Type 0} (b : Bool) (a a' : A) → checked b a ≡ ok a' → (b ≡ true) × (a ≡ a')
checked_iff true a a' h = (refl, ground arith)
checked_iff false a a' h = absurd (ground arith)

-- a place is of the transport that it was read for
pub normalize_place-transport :
    (t : Transport) (bus_name : Text) (backend : BackendItem) (fs item : Fields) (p : Place)
    → normalize_place t bus_name backend fs item ≡ ok p
    → transport_of p ≡ t
unfolding normalize_place
normalize_place-transport i2c bus_name backend fs item p h = ground arith
normalize_place-transport spi bus_name backend fs item p h = ground arith
normalize_place-transport uart bus_name backend fs item p h = ground arith

-- the checks that a normalized device has passed
pub record DeviceRead (buses : Buses) (d : DeviceItem) : Type 0 where
  pub item : Fields
  pub fs : Fields
  pub bus : BusSpec
  pub id_read : expect_name (or_else null (get (codes "id") item)) ≡ ok d.id
  pub bus_read : expect_name (or_else null (get (codes "bus") item)) ≡ ok d.bus
  pub on_bus : lookup bytes_eq d.bus buses ≡ some bus
  pub backend_read : normalize_backend fs ≡ ok d.backend
  pub faults_read : normalize_faults (or_else null (get (codes "faults") item)) ≡ ok d.faults
  pub place_read : normalize_place bus.transport bus.name d.backend fs item ≡ ok d.place

pub normalize_device-Read :
    (buses : Buses) (v : Value) → Ensures (DeviceRead buses) (normalize_device buses v)
unfolding normalize_device
normalize_device-Read buses v = Ensures-bind (DeviceRead buses) (expect_mapping v) _ (λ item e0.
    Ensures-bind (DeviceRead buses) (expect_name (or_else null (get (codes "id") item))) _ (λ id e1.
      Ensures-bind (DeviceRead buses) (expect_name (or_else null (get (codes "bus") item))) _
        (λ bus_id e2.
          Ensures-bind (DeviceRead buses) (found (lookup bytes_eq bus_id buses)) _ (λ bus e3.
            Ensures-bind (DeviceRead buses)
              (one_of transports (or_else null (get (codes "transport") item))) _
              (λ transport e4.
                Ensures-bind (DeviceRead buses)
                  (checked (same_transport transport bus.transport) transport) _
                  (λ matching e5.
                    Ensures-bind (DeviceRead buses)
                      (expect_mapping (or_else null (get (codes "backend") item))) _
                      (λ fs e6.
                        Ensures-bind (DeviceRead buses) (normalize_backend fs) _ (λ backend e7.
                          Ensures-bind (DeviceRead buses)
                            (expect_mapping (or_else null (get (codes "metadata") item))) _
                            (λ metadata e8.
                              Ensures-bind (DeviceRead buses)
                                (normalize_faults (or_else null (get (codes "faults") item))) _
                                (λ faults e9.
                                  Ensures-bind (DeviceRead buses)
                                    (normalize_place matching bus.name backend fs item) _
                                    (λ place e10.
                                      let (same, kept) =
                                        checked_iff (same_transport transport bus.transport)
                                          transport matching e5 in
                                      let is_transport : matching ≡ bus.transport =
                                        sym kept
                                        ∙ same_transport_iff transport bus.transport same in
                                      Ensures-ok (DeviceRead buses) (record {
                                        item = item;
                                        fs = fs;
                                        bus = bus;
                                        id_read = e1;
                                        bus_read = e2;
                                        on_bus = found_iff (lookup bytes_eq bus_id buses) bus e3;
                                        backend_read = e7;
                                        faults_read = e9;
                                        place_read =
                                            subst
                                              (λ t.
                                                normalize_place t bus.name backend fs item
                                                ≡ ok place)
                                              is_transport e10;
                                      }))))))))))))

pub DeviceRead-OnBus : (buses : Buses) (d : DeviceItem) → DeviceRead buses d → OnBus buses d
DeviceRead-OnBus buses d r = (
  r.bus,
  r.on_bus,
  normalize_place-transport r.bus.transport r.bus.name d.backend r.fs r.item d.place r.place_read,
)

-- the devices so far, each of which was read
pub record Devices (buses : Buses) (ds : List DeviceItem) : Type 0 where
  pub differ : Pairwise DevicesDiffer ds
  pub read : AllOf (DeviceRead buses) ds

pub normalize_devices-Devices :
    (buses : Buses) (ds : List DeviceItem) (vs : List Value)
    → Devices buses ds
    → Ensures (Devices buses) (normalize_devices buses ds vs)
unfolding normalize_devices
normalize_devices-Devices buses ds [] h = Ensures-ok (Devices buses) h
normalize_devices-Devices buses ds (v ∷ vs) h =
    Ensures-bind (Devices buses) (normalize_device buses v) _ (λ d e.
      Ensures-bind (Devices buses) (refuse_if (device_refused d ds) d) _ (λ d' e'.
        let (free, same) = refuse_if_iff (device_refused d ds) d d' e' in
        let read =
          Ensures-elim (DeviceRead buses) (normalize_device buses v) d
            (normalize_device-Read buses v) e in
        let more : Devices buses (ds ++ d ∷ []) = record {
          differ = Pairwise-concat DevicesDiffer ds d h.differ (device_refused-Differ d ds free);
          read = AllOf-concat (DeviceRead buses) ds d h.read read;
        } in
        normalize_devices-Devices buses (ds ++ d' ∷ []) vs
          (subst (λ x. Devices buses (ds ++ x ∷ [])) same more)))

-- a model with the checks that its parts have passed
pub record ModelRead (m : ModelItem) : Type 0 where
  pub buses_differ : Pairwise BusesDiffer m.buses
  pub devices : Devices m.buses m.devices

normalize_model-Ensures : (v : Value) → Ensures ModelRead (normalize_model v)
unfolding normalize_model
normalize_model-Ensures v = Ensures-bind ModelRead (expect_mapping v) _ (λ raw e0.
    Ensures-bind ModelRead (expect_string (or_else null (get (codes "name") raw))) _ (λ name e1.
      Ensures-bind ModelRead (expect_string (or_else null (get (codes "adapter") raw))) _
        (λ adapter e2.
          Ensures-bind ModelRead (checked (bytes_eq adapter (codes "runtime")) adapter) _
            (λ adapter' e3.
              Ensures-bind ModelRead
                (expect_schema_version (or_else null (get (codes "schema_version") raw))) _
                (λ version e4.
                  Ensures-bind ModelRead (expect_mapping (or_else null (get (codes "runtime") raw)))
                    _
                    (λ runtime e5.
                      Ensures-bind ModelRead
                        (expect_list (or_else null (get (codes "buses") runtime))) _
                        (λ buses_raw e6.
                          Ensures-bind ModelRead
                            (expect_list (or_else null (get (codes "devices") runtime))) _
                            (λ devices_raw e7.
                              Ensures-bind ModelRead (normalize_buses [] (to_list buses_raw)) _
                                (λ buses e8.
                                  Ensures-bind ModelRead
                                    (normalize_devices buses [] (to_list devices_raw)) _
                                    (λ devices e9. Ensures-ok ModelRead (record {
                                      buses_differ =
                                          Ensures-elim (Pairwise BusesDiffer)
                                            (normalize_buses [] (to_list buses_raw)) buses
                                            (normalize_buses-Differ [] (to_list buses_raw) tt tt)
                                            e8;
                                      devices =
                                          Ensures-elim (Devices buses)
                                            (normalize_devices buses [] (to_list devices_raw))
                                            devices
                                            (normalize_devices-Devices buses []
                                              (to_list devices_raw)
                                              (record { differ = tt; read = tt }))
                                            e9;
                                    })))))))))))

normalize_model-ModelRead : (v : Value) (m : ModelItem) → normalize_model v ≡ ok m → ModelRead m
normalize_model-ModelRead v m h =
    Ensures-elim ModelRead (normalize_model v) m (normalize_model-Ensures v) h

pub normalize_model-Read :
    (v : Value) (m : ModelItem) → normalize_model v ≡ ok m → AllOf (DeviceRead m.buses) m.devices
normalize_model-Read v m h = (normalize_model-ModelRead v m h).devices.read

-- A model that is accepted has no bus id twice, no name twice among the buses of a transport, no device id
-- twice, and no two devices at one address or chip select of a bus, or at one port; and each device is on a
-- bus of the model, whose transport is its own.
pub normalize_model_lem : (v : Value) (m : ModelItem) → normalize_model v ≡ ok m → IsSound m
normalize_model_lem v m h =
    let read = normalize_model-ModelRead v m h in
    record {
      buses_differ = read.buses_differ;
      devices_differ = read.devices.differ;
      on_buses =
          AllOf-map (DeviceRead m.buses) (OnBus m.buses) m.devices (DeviceRead-OnBus m.buses)
            read.devices.read;
    }
