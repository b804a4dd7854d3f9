-- ===== src/Runtime/Apply/Tables.antt =====
-- src/sensorium/runtime/inventory.py and state.py: the dictionaries of buses and devices while a model is applied,
-- next to those that the model and its attachments ask for.
use sensorium.Base.{
  ℕ, ◌+◌, ◌≡◌, refl, ap, ◌∙◌, inl, inr, List, [], ◌∷◌, Option, none, some, Text, Bytes, lookup,
  insert, bytes_eq, ◌==◌, map_values, insert-map_values,
}
use sensorium.Base.Result.{Result, ok, raise, Result-cases, ◌>>=◌}
use sensorium.Bridge.Protocol.{cmd_bus_add, cmd_device_add}
use sensorium.Device.{Device}
use sensorium.Runtime.{Runtime, Bus}
use sensorium.Runtime.Outside.{write_frame}
use sensorium.Runtime.Inventory.{
  BusSpec, DeviceSpec, add_bus, pack_bus, add_device, device_command, send_device, or_key_error,
  place_of, pack_device, sync_if_uart,
}
use sensorium.Runtime.Inventory.Handles.{
  SameTables, write_frame-SameTables, sync_if_uart-SameTables,
}
use sensorium.Runtime.Inventory.Ends.{EndsIn, EndsIn-then, EndsIn-behind, EndsIn-always}
use sensorium.Runtime.Apply.{add_buses, add_devices}

abbrev pub bus_entry : Bus → BusSpec
bus_entry b = record { id = b.id; transport = b.transport; name = b.name }

-- a device as the model has it, and the backend that it is attached to
pub record Placed : Type 0 where
  pub spec : DeviceSpec
  pub backend : Option Text

abbrev pub device_entry : Device → Placed
device_entry d =
    let s : DeviceSpec = record {
      id = d.id;
      bus = d.bus;
      transport = d.transport;
      address = d.address;
      chip_select = d.chip_select;
      device_name = d.device_name;
      port_name = d.port_name;
      backend = d.backend;
      faults = d.faults;
      settings = d.settings;
    } in
    record { spec = s; backend = d.attached_backend }

abbrev unattached : DeviceSpec → Placed
unattached s = record { spec = s; backend = none }

-- the dictionaries that a model asks for
unfoldable pub buses_of : List BusSpec → List (Text × BusSpec) → List (Text × BusSpec)
buses_of [] dict = dict
buses_of (b ∷ bs) dict = buses_of bs (insert bytes_eq b.id b dict)

unfoldable pub devices_of : List DeviceSpec → List (Text × Placed) → List (Text × Placed)
devices_of [] dict = dict
devices_of (s ∷ ss) dict = devices_of ss (insert bytes_eq s.id (unattached s) dict)

-- one device is attached, where there is such a device
abbrev pub attach_one : Text → Text → List (Text × Placed) → List (Text × Placed)
attach_one backend_id id dict = elim (lookup bytes_eq id dict) [
  | none ↦ dict
  | some e ↦ insert bytes_eq id (record e { backend = some backend_id }) dict
]

unfoldable pub attach_ids : Text → List Text → List (Text × Placed) → List (Text × Placed)
attach_ids backend_id [] dict = dict
attach_ids backend_id (id ∷ ids) dict = attach_ids backend_id ids (attach_one backend_id id dict)

unfoldable pub attached_of : List (Text × List Text) → List (Text × Placed) → List (Text × Placed)
attached_of [] dict = dict
attached_of ((backend_id, ids) ∷ rest) dict = attached_of rest (attach_ids backend_id ids dict)

-- the daemon has exactly these buses and devices, under this name
pub record Holds (name : Text) (buses : List (Text × BusSpec)) (devices : List (Text × Placed))
    (rt : Runtime) : Type 0 where
  pub named : rt.model_name ≡ some name
  pub has_buses : map_values bus_entry rt.buses ≡ buses
  pub has_devices : map_values device_entry rt.devices ≡ devices

pub Holds-same :
    (name : Text) (bs : List (Text × BusSpec)) (ds : List (Text × Placed)) (rt rt' : Runtime)
    → SameTables rt rt'
    → Holds name bs ds rt
    → Holds name bs ds rt'
Holds-same name bs ds rt rt' same h = record {
  named = same.same_name ∙ h.named;
  has_buses = ap (map_values bus_entry) same.same_buses ∙ h.has_buses;
  has_devices = ap (map_values device_entry) same.same_devices ∙ h.has_devices;
}

module _ (name : Text) where
  add_bus-Holds :
      (b : BusSpec) (bs : List (Text × BusSpec)) (ds : List (Text × Placed)) (rt : Runtime)
      → Holds name bs ds rt
      → EndsIn (Holds name (insert bytes_eq b.id b bs) ds) (add_bus b rt)
  unfolding add_bus write_frame
  add_bus-Holds b bs ds rt h = elim (Result-cases (pack_bus rt.next_bus_handle b)) [
    | inr (err, e) ↦ rw (e, add_bus) (record { here = tt })
    | inl (payload, e) ↦
        let bus : Bus = record {
          id = b.id;
          transport = b.transport;
          name = b.name;
          handle = rt.next_bus_handle;
        } in
        let sent =
          write_frame cmd_bus_add payload
            (record rt { next_bus_handle = rt.next_bus_handle + 1 }) in
        rw (e, add_bus)
          (EndsIn-behind (Holds name (insert bytes_eq b.id b bs) ds) sent _ (λ _. record {
            here = record {
              named = h.named;
              has_buses =
                  insert-map_values bytes_eq bus_entry b.id bus rt.buses
                  ∙ ap (insert bytes_eq b.id b) h.has_buses;
              has_devices = h.has_devices;
            };
          }))
  ]

  pub add_buses-Holds :
      (specs : List BusSpec) (bs : List (Text × BusSpec)) (ds : List (Text × Placed)) (rt : Runtime)
      → Holds name bs ds rt
      → EndsIn (Holds name (buses_of specs bs) ds) (add_buses specs rt)
  unfolding add_buses buses_of
  add_buses-Holds [] bs ds rt h = record { here = h }
  add_buses-Holds (b ∷ specs) bs ds rt h =
      EndsIn-then (Holds name (insert bytes_eq b.id b bs) ds)
        (Holds name (buses_of specs (insert bytes_eq b.id b bs)) ds) (add_bus b rt) _
        (add_bus-Holds b bs ds rt h)
        (λ _ rt' h'. add_buses-Holds specs (insert bytes_eq b.id b bs) ds rt' h')

-- the device of the command is the one of the specification, attached to nothing
record Enters (s : DeviceSpec) (r : Result (Bytes × Device)) : Type 0 where
  entered : elim r as (λ _. Type 0) [
    | ok (payload, d) ↦ device_entry d ≡ unattached s
    | raise e ↦ Unit {0}
  ]

device_command-Enters :
    (s : DeviceSpec) (handle : ℕ) (bus : Option Bus) → Enters s (device_command s handle bus)
device_command-Enters s handle bus = elim (Result-cases (or_key_error bus)) [
  | inr (err, e) ↦ rw (e, ◌>>=◌) (record { entered = tt })
  | inl (b, e) ↦ elim (Result-cases (place_of s)) [
    | inr (err, e') ↦ rw (e, e', ◌>>=◌) (record { entered = tt })
    | inl (place, e') ↦ elim (Result-cases (pack_device handle b.handle s place.0 place.1)) [
      | inr (err, e'') ↦ rw (e, e', e'', ◌>>=◌) (record { entered = tt })
      | inl (payload, e'') ↦ rw (e, e', e'', ◌>>=◌) (record { entered = refl })
    ]
  ]
]

module _ (name : Text) (bs : List (Text × BusSpec)) where
  -- with the device's entry
  abbrev Added : DeviceSpec → List (Text × Placed) → Runtime → Type 0
  Added s ds = Holds name bs (insert bytes_eq s.id (unattached s) ds)

  tabled-Holds :
      (s : DeviceSpec) (d : Device) (handle : ℕ) (ds : List (Text × Placed)) (rt : Runtime)
      → device_entry d ≡ unattached s
      → Holds name bs ds rt
      → Added s ds (record rt {
        devices = insert bytes_eq s.id d rt.devices;
        devices_by_handle = insert ◌==◌ handle s.id rt.devices_by_handle;
      })
  tabled-Holds s d handle ds rt e h = record {
    named = h.named;
    has_buses = h.has_buses;
    has_devices =
        insert-map_values bytes_eq device_entry s.id d rt.devices
        ∙ ap (λ x. insert bytes_eq s.id x (map_values device_entry rt.devices)) e
        ∙ ap (insert bytes_eq s.id (unattached s)) h.has_devices;
  }

  send_device-Holds :
      (s : DeviceSpec) (handle : ℕ) (r : Result (Bytes × Device)) (ds : List (Text × Placed))
      (rt : Runtime)
      → Enters s r
      → Holds name bs ds rt
      → EndsIn (Added s ds) (send_device s handle r rt)
  send_device-Holds s handle (raise e) ds rt enters h = record { here = tt }
  send_device-Holds s handle (ok (payload, d)) ds rt enters h =
      let rt' = (write_frame cmd_device_add payload rt).1 in
      let tabled : Runtime = record rt' {
        devices = insert bytes_eq s.id d rt'.devices;
        devices_by_handle = insert ◌==◌ handle s.id rt'.devices_by_handle;
      } in
      EndsIn-behind (Added s ds) (write_frame cmd_device_add payload rt) _ (λ _.
        EndsIn-always (Added s ds) (sync_if_uart s.transport d tabled) (
          Holds-same name bs (insert bytes_eq s.id (unattached s) ds) tabled _
            (sync_if_uart-SameTables s.transport d tabled)
            (tabled-Holds s d handle ds rt' enters.entered
              (Holds-same name bs ds rt rt' (write_frame-SameTables cmd_device_add payload rt) h))))

  add_device-Holds :
      (s : DeviceSpec) (ds : List (Text × Placed)) (rt : Runtime)
      → Holds name bs ds rt
      → EndsIn (Added s ds) (add_device s rt)
  unfolding add_device
  add_device-Holds s ds rt h =
      send_device-Holds s rt.next_device_handle _ ds
        (record rt { next_device_handle = rt.next_device_handle + 1 })
        (device_command-Enters s rt.next_device_handle (lookup bytes_eq s.bus rt.buses))
        (record { named = h.named; has_buses = h.has_buses; has_devices = h.has_devices })

  pub add_devices-Holds :
      (specs : List DeviceSpec) (ds : List (Text × Placed)) (rt : Runtime)
      → Holds name bs ds rt
      → EndsIn (Holds name bs (devices_of specs ds)) (add_devices specs rt)
  unfolding add_devices devices_of
  add_devices-Holds [] ds rt h = record { here = h }
  add_devices-Holds (s ∷ specs) ds rt h =
      EndsIn-then (Added s ds)
        (Holds name bs (devices_of specs (insert bytes_eq s.id (unattached s) ds)))
        (add_device s rt) _ (add_device-Holds s ds rt h)
        (λ _ rt' h'. add_devices-Holds specs (insert bytes_eq s.id (unattached s) ds) rt' h')
