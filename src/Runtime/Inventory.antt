-- ===== src/Runtime/Inventory.antt =====
-- src/sensorium/runtime/inventory.py: buses, devices, and applying a model with its roll-back. A model here is
-- one that normalization has accepted; a name is its UTF-8 bytes.
pub mod Ends
pub mod Handles
use sensorium.Base.{
  ℕ, ◌+◌, ◌^◌, Bool, false, ◌&&◌, List, ◌∷◌, ◌++◌, Option, none, some, if◌then◌else◌, ltb, Bytes,
  Text, lookup, insert, bytes_eq, ◌==◌, to_le,
}
use sensorium.Base.Result.{Result, ok, raise, key_error, struct_error, ◌>>=◌}
use sensorium.Template.Uart.{modem_defaults}
use sensorium.Bridge.Protocol.{
  cmd_bus_add, cmd_device_add, cmd_uart_set_modem, encode_c_string, parse_tty_name,
}
use sensorium.Device.{
  Device, Backend, Fault, Settings, spi_settings, Transport, i2c, spi, uart, bank, spi_state,
  uart_state, build_template, fresh_stats,
}
use sensorium.Runtime.{Runtime, Bus, Action}
use sensorium.Runtime.Outside.{write_frame}
use sensorium.Runtime.Backends.{modem_payload}

pub record BusSpec : Type 0 where
  pub id : Text
  pub transport : Transport
  pub name : Text

pub record DeviceSpec : Type 0 where
  pub id : Text
  pub bus : Text
  pub transport : Transport
  pub address : Option ℕ
  pub chip_select : Option ℕ
  pub device_name : Option Text
  pub port_name : Option Text
  pub backend : Backend
  pub faults : Fault
  pub settings : Settings

pub record Model : Type 0 where
  pub name : Text
  pub buses : List BusSpec
  pub devices : List DeviceSpec

-- the operations one after the other; an exception ends them
infixl 5 ◌and_then◌
abbrev pub ◌and_then◌ : {A B : Type 0} → Result A × Runtime → (A → Action B) → Result B × Runtime
(ok a, rt) and_then f = f a rt
(raise e, rt) and_then f = (raise e, rt)

-- TRANSPORT_IDS
abbrev pub transport_id : Transport → ℕ
transport_id i2c = 1
transport_id spi = 2
transport_id uart = 3

-- a field of `struct` that holds its number
abbrev pub fits : Bool → Bytes → Result Bytes
fits b packed = if b then ok packed else raise struct_error

-- BUS_CMD_STRUCT
unfoldable pub pack_bus : ℕ → BusSpec → Result Bytes
pack_bus handle b = encode_c_string b.name 64 >>= λ name.
    fits (ltb handle (2 ^ 32))
      (to_le 4 handle ++ (to_le 4 (transport_id b.transport) ++ (to_le 4 0 ++ name)))

abbrev send_packed : ℕ → Result Bytes → Action (Unit {0})
send_packed msg_type (raise e) rt = (raise e, rt)
send_packed msg_type (ok payload) rt = write_frame msg_type payload rt

-- `_add_bus_locked`; the handle is used up even where the bus is refused
unfoldable pub add_bus : BusSpec → Action (Unit {0})
unfolding pack_bus write_frame
add_bus b rt =
    let handle = rt.next_bus_handle in
    let bus : Bus = record { id = b.id; transport = b.transport; name = b.name; handle = handle } in
    send_packed cmd_bus_add (pack_bus handle b) (record rt { next_bus_handle = handle + 1 })
    and_then λ _ rt'. (ok tt, record rt' { buses = insert bytes_eq b.id bus rt'.buses })

abbrev pub or_key_error : {A : Type 0} → Option A → Result A
or_key_error none = raise key_error
or_key_error (some a) = ok a

-- the location and the node's name, by transport
unfoldable pub place_of : DeviceSpec → Result (ℕ × Text)
place_of s = elim s.transport [
  | i2c ↦ or_key_error s.address >>= λ a. ok (a, s.id)
  | spi ↦ or_key_error s.chip_select >>= λ c. or_key_error s.device_name >>= λ n. ok (c, n)
  | uart ↦ or_key_error s.port_name >>= λ n. parse_tty_name n >>= λ p. ok (p.1, n)
]

-- speed, mode and bits per word of DEVICE_CMD_STRUCT
abbrev spi_words : Transport → Settings → ℕ × ℕ × ℕ
spi_words spi (spi_settings s) = (s.max_speed_hz, s.mode, s.bits_per_word)
spi_words spi _ = (500000, 0, 8)
spi_words _ _ = (0, 0, 0)

-- DEVICE_CMD_STRUCT, `<IIIIIIBB2x64s`
unfoldable pub pack_device : ℕ → ℕ → DeviceSpec → ℕ → Text → Result Bytes
pack_device handle bus_handle s location node_name =
    let (speed, mode, bits) = spi_words s.transport s.settings in
    encode_c_string node_name 64 >>= λ name.
    fits
      (ltb handle (2 ^ 32)
        && ltb bus_handle (2 ^ 32)
        && ltb location (2 ^ 32)
        && ltb speed (2 ^ 32)
        && ltb mode 256
        && ltb bits 256)
      (to_le 4 handle
        ++ (to_le 4 (transport_id s.transport)
            ++ (to_le 4 bus_handle
                ++ (to_le 4 location
                    ++ (to_le 4 0
                        ++ (to_le 4 speed
                            ++ (to_le 1 mode ++ (to_le 1 bits ++ (0 ∷ 0 ∷ name)))))))))

abbrev stored : DeviceSpec → ℕ → ℕ → Text → Device
stored s handle bus_handle node_name = record {
  id = s.id;
  bus = s.bus;
  transport = s.transport;
  address = s.address;
  chip_select = s.chip_select;
  device_name = s.device_name;
  port_name = s.port_name;
  backend = s.backend;
  faults = s.faults;
  settings = s.settings;
  handle = handle;
  bus_handle = bus_handle;
  kernel_name = node_name;
  state = build_template s.backend;
  attached_backend = none;
  degraded = false;
  stats = fresh_stats;
}

-- `_sync_uart_defaults`
unfoldable pub sync_uart_defaults : Device → Action (Unit {0})
unfolding write_frame
sync_uart_defaults d rt = elim d.state [
  | none ↦ (ok tt, rt)
  | some t ↦ elim t [
    | bank b ↦ (ok tt, rt)
    | spi_state s ↦ (ok tt, rt)
    | uart_state s ↦
        let bits = modem_defaults s in
        if bits.0 == 0
        then (ok tt, rt)
        else write_frame cmd_uart_set_modem (modem_payload d.handle bits) rt
  ]
]

abbrev pub sync_if_uart : Transport → Device → Action (Unit {0})
sync_if_uart uart d rt = sync_uart_defaults d rt
sync_if_uart i2c d rt = (ok tt, rt)
sync_if_uart spi d rt = (ok tt, rt)

-- the command for a device, with its bus and place
abbrev pub device_command : DeviceSpec → ℕ → Option Bus → Result (Bytes × Device)
device_command s handle bus = or_key_error bus >>= λ b. place_of s >>= λ place.
    pack_device handle b.handle s place.0 place.1 >>= λ payload.
    ok (payload, stored s handle b.handle place.1)

abbrev pub send_device : DeviceSpec → ℕ → Result (Bytes × Device) → Action (Unit {0})
send_device s handle (raise e) rt = (raise e, rt)
send_device s handle (ok (payload, d)) rt = write_frame cmd_device_add payload rt and_then λ _ rt'.
    sync_if_uart s.transport d (record rt' {
      devices = insert bytes_eq s.id d rt'.devices;
      devices_by_handle = insert ◌==◌ handle s.id rt'.devices_by_handle;
    })

-- `_add_device_locked`
unfoldable pub add_device : DeviceSpec → Action (Unit {0})
unfolding place_of pack_device sync_uart_defaults write_frame
add_device s rt =
    let handle = rt.next_device_handle in
    send_device s handle (device_command s handle (lookup bytes_eq s.bus rt.buses))
      (record rt { next_device_handle = handle + 1 })
