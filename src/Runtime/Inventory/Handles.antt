-- ===== src/Runtime/Inventory/Handles.antt =====
-- src/sensorium/runtime/inventory.py, `_add_device_locked`: the handle of a new device.
use sensorium.Base.{
  ℕ, ◌+◌, ◌≡◌, refl, Bool-cases, inl, inr, some, Text, Bytes, insert, bytes_eq, ◌==◌,
}
use sensorium.Base.Result.{Result, ok, raise}
use sensorium.Device.{Device, Transport, i2c, spi, uart}
use sensorium.Device.Cases.{State-cases, no_state, of_bank, of_spi, of_uart}
use sensorium.Template.Uart.{modem_defaults}
use sensorium.Runtime.{Runtime}
use sensorium.Runtime.Outside.{write_frame}
use sensorium.Runtime.Requests.{device_by_handle}
use sensorium.Runtime.Inventory.{DeviceSpec, sync_uart_defaults, sync_if_uart}

-- the command is for the device of the specification, under the handle that is given
record Fits (s : DeviceSpec) (handle : ℕ) (r : Result (Bytes × Device)) : Type 0 where
  fits : elim r as (λ _. Type 0) [
    | ok (payload, d) ↦ (d.id ≡ s.id) × (d.handle ≡ handle)
    | raise e ↦ Unit {0}
  ]

-- the operation leaves the dictionaries, the next handle and the model's name
pub record SameTables (rt rt' : Runtime) : Type 0 where
  pub same_devices : rt'.devices ≡ rt.devices
  pub same_handles : rt'.devices_by_handle ≡ rt.devices_by_handle
  pub same_next : rt'.next_device_handle ≡ rt.next_device_handle
  pub same_buses : rt'.buses ≡ rt.buses
  pub same_name : rt'.model_name ≡ rt.model_name

pub write_frame-SameTables :
    (msg_type : ℕ) (payload : Bytes) (rt : Runtime)
    → SameTables rt (write_frame msg_type payload rt).1
unfolding write_frame
write_frame-SameTables msg_type payload rt = record {
  same_devices = refl;
  same_handles = refl;
  same_next = refl;
  same_buses = refl;
  same_name = refl;
}

unchanged : (rt : Runtime) → SameTables rt rt
unchanged rt = record {
  same_devices = refl;
  same_handles = refl;
  same_next = refl;
  same_buses = refl;
  same_name = refl;
}

sync-SameTables : (d : Device) (rt : Runtime) → SameTables rt (sync_uart_defaults d rt).1
unfolding sync_uart_defaults
sync-SameTables d rt = elim (State-cases d.state) [
  | no_state e ↦ rw (e, sync_uart_defaults) (unchanged rt)
  | of_bank b e ↦ rw (e, sync_uart_defaults) (unchanged rt)
  | of_spi t e ↦ rw (e, sync_uart_defaults) (unchanged rt)
  | of_uart t e ↦ elim (Bool-cases ((modem_defaults t).0 == 0)) [
    | inl zero ↦ rw (e, zero, sync_uart_defaults) (unchanged rt)
    | inr some_bits ↦ rw (e, some_bits, sync_uart_defaults) (write_frame-SameTables _ _ rt)
  ]
]

pub sync_if_uart-SameTables :
    (t : Transport) (d : Device) (rt : Runtime) → SameTables rt (sync_if_uart t d rt).1
sync_if_uart-SameTables uart d rt = sync-SameTables d rt
sync_if_uart-SameTables i2c d rt = unchanged rt
sync_if_uart-SameTables spi d rt = unchanged rt

-- the device is found under the handle, which is its own, and the next handle is another
abbrev pub IsAdded : Text → ℕ → Runtime → Type 0
IsAdded id handle rt =
    ((d : Device) × (device_by_handle handle rt ≡ some d) × (d.id ≡ id) × (d.handle ≡ handle))
    × (rt.next_device_handle ≡ handle + 1)

-- both dictionaries have an entry for the device
abbrev tabled : Text → ℕ → Device → Runtime → Runtime
tabled id handle d rt = record rt {
  devices = insert bytes_eq id d rt.devices;
  devices_by_handle = insert ◌==◌ handle id rt.devices_by_handle;
}
