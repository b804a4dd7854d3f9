-- ===== src/Normalize/Tests.antt =====
-- Runs of src/sensorium/runtime/model.py over one model: a bus with a sensor of registers, and a bus with a port.
use sensorium.Base.{
  ◌≡◌, refl, true, false, List, [], ◌∷◌, none, some, Text, codes, pos, lookup, insert, AllOf, arith,
}
use sensorium.Base.Result.{ok, raise, runtime_error}
use sensorium.Device.{
  i2c, uart, Fault, fault_none, fault_timeout, UartSettings, parity_none, uart_settings,
}
use sensorium.Normalize.Values.{end, Value, int, str, arr, obj, of_list, of_pairs}
use sensorium.Normalize.Items.{
  DeviceItem, by_template, register_bank, by_controller, i2c_place, uart_place, normalize_bus,
  normalize_device, normalize_backend, normalize_place,
}
use sensorium.Normalize.{ModelItem, normalize_model, normalize_buses, normalize_devices}
use sensorium.Normalize.Unique.{IsSound}
use sensorium.Normalize.Unique.Model.{normalize_model_lem}
use sensorium.Bridge.Protocol.{decimal, split_digits}
use sensorium.Normalize.Words.{
  strip, lstrip, rstrip, is_space, digit_of, digits, ungroup, magnitude, int_literal, hex_digits,
  hex_key, fromhex, decimal_digits,
}
use sensorium.Normalize.Expect.{
  expect_string, expect_name, expect_hex_int, expect_bytes, is_index, is_port_name,
}
use sensorium.Normalize.Parts.{
  normalize_faults, normalize_uart_settings, normalize_bank, normalize_i2c_registers, add_sorted,
  collect, collect_registers,
}
use sensorium.Normalize.Restore.Devices.{DeviceBytes}
use sensorium.Normalize.Restore.Parts.{OptionOf}
use sensorium.Normalize.Restore.HexBytes.{AllBytes}
use sensorium.Normalize.Restore.Places.{PlaceBytes}
use sensorium.Runtime.UartRequest.{UartConfig, derive_uart_settings}
use sensorium.Normalize.Spec.Placed.{IsPlaced, accepted-IsPlaced}
use sensorium.Normalize.Restore.Whole.{exported, model_value, model_restored}
use sensorium.Normalize.Restore.Settings.{without_flags, derived_settings_restored}
use sensorium.Normalize.Export.{uart_settings_value}

abbrev dict : List (Value × Value) → Value
dict kvs = obj (of_pairs kvs)

abbrev item : Text → Value → Value × Value
item k v = (str k, v)

abbrev sensor : Value
sensor = dict (
    item (codes "id") (str (codes "sensor"))
    ∷ item (codes "bus") (str (codes "main"))
    ∷ item (codes "transport") (str (codes "i2c"))
    ∷ item (codes "address") (str (codes "0x48"))
    ∷ item (codes "metadata") (dict (item (codes "part") (str (codes "x")) ∷ []))
    ∷ item (codes "backend") (
        dict (
          item (codes "kind") (str (codes "template"))
          ∷ item (codes "template") (str (codes "i2c-register-bank"))
          ∷ item (codes "size") (int (pos 16))
          ∷ item (codes "registers")
              (dict ((str (codes "0x01"), int (pos 7)) ∷ (int (pos 2), str (codes " 0x10")) ∷ []))
          ∷ item (codes "clear_on_read")
              (arr (of_list (int (pos 2) ∷ str (codes "1") ∷ int (pos 2) ∷ [])))
          ∷ []))
    ∷ item (codes "faults") (
        dict (
          item (codes "mode") (str (codes "timeout"))
          ∷ item (codes "remaining") (int (pos 2))
          ∷ []))
    ∷ [])

abbrev console : Value
console = dict (
    item (codes "id") (str (codes "console"))
    ∷ item (codes "bus") (str (codes "serial"))
    ∷ item (codes "transport") (str (codes "uart"))
    ∷ item (codes "port_name") (str (codes "ttyV10"))
    ∷ item (codes "backend") (dict (item (codes "kind") (str (codes "controller")) ∷ []))
    ∷ [])

abbrev bus_item : Text → Text → Text → List (Value × Value) → Value
bus_item id transport name more = dict (
    item (codes "id") (str id)
    ∷ item (codes "transport") (str transport)
    ∷ item (codes "name") (str name)
    ∷ more)

abbrev raw : Value
raw = dict (
    item (codes "name") (str (codes " bench "))
    ∷ item (codes "adapter") (str (codes "runtime"))
    ∷ item (codes "runtime") (
        dict (
          item (codes "buses") (
            arr (
              of_list (
                bus_item (codes "main") (codes "i2c") (codes "i2c-1")
                  (item (codes "metadata") (dict (item (codes "room") (str (codes "4")) ∷ [])) ∷ [])
                ∷ bus_item (codes "serial") (codes "uart") (codes "serial") []
                ∷ [])))
          ∷ item (codes "devices") (arr (of_list (sensor ∷ console ∷ [])))
          ∷ []))
    ∷ [])

abbrev no_fault : Fault
no_fault = record { mode = fault_none; remaining = 0; errno = none; reply_data = none }

abbrev port_settings : UartSettings
port_settings = record {
  baud_rate = 115200;
  data_bits = 8;
  parity = parity_none;
  stop_bits = 1;
  xonxoff = false;
  rtscts = false;
  flags = none;
}

abbrev bench : ModelItem
bench = record {
  name = codes "bench";
  buses =
      (codes "main", record { id = codes "main"; transport = i2c; name = codes "i2c-1" })
      ∷ (codes "serial", record { id = codes "serial"; transport = uart; name = codes "serial" })
      ∷ [];
  bus_metadata = of_pairs ((str (codes "room"), str (codes "4")) ∷ []) ∷ end ∷ [];
  devices =
      record {
        id = codes "sensor";
        bus = codes "main";
        backend = by_template register_bank;
        metadata = of_pairs ((str (codes "part"), str (codes "x")) ∷ []);
        faults = record { mode = fault_timeout; remaining = 2; errno = none; reply_data = none };
        place = i2c_place 72 (
            some (record {
              size = 16;
              pointer_width = 1;
              auto_increment = true;
              registers = (1, 7) ∷ (2, 16) ∷ [];
              clear_on_read = 1 ∷ 2 ∷ [];
              write_effects = [];
            }));
      }
      ∷ record {
        id = codes "console";
        bus = codes "serial";
        backend = by_controller none;
        metadata = end;
        faults = no_fault;
        place = uart_place (codes "ttyV10") port_settings none;
      }
      ∷ [];
}

raw-accepted : normalize_model raw ≡ ok bench
unfolding normalize_model expect_string expect_name expect_hex_int expect_bytes is_index
    is_port_name strip lstrip rstrip is_space digit_of digits ungroup magnitude int_literal
    hex_digits hex_key fromhex decimal_digits lookup insert decimal split_digits normalize_faults
    normalize_uart_settings normalize_bank normalize_i2c_registers add_sorted collect
    collect_registers normalize_bus normalize_device normalize_backend normalize_place
    normalize_buses normalize_devices
raw-accepted = refl

normalize_model_lem_example : IsSound bench
normalize_model_lem_example = normalize_model_lem raw bench raw-accepted

bytes :
    {d : DeviceItem} → OptionOf AllBytes d.faults.reply_data → PlaceBytes d.place → DeviceBytes d
bytes f p = record { of_faults = f; of_place = p }

model_restored_example : normalize_model (model_value bench) ≡ ok (exported bench)
model_restored_example = model_restored raw bench raw-accepted (bytes tt tt, (bytes tt tt, tt))

accepted-IsPlaced_example : AllOf IsPlaced bench.devices
accepted-IsPlaced_example = accepted-IsPlaced raw bench raw-accepted

abbrev even_config : UartConfig
even_config = record { baud_rate = 0; cflag = 0x130; iflag = 0x400; oflag = 0; lflag = 0 }

derived_settings_restored_example :
    normalize_uart_settings
      (uart_settings_value (derive_uart_settings (uart_settings port_settings) even_config))
    ≡ ok (without_flags (derive_uart_settings (uart_settings port_settings) even_config))
derived_settings_restored_example =
    derived_settings_restored port_settings even_config (omega arith)

-- a second device at the address of the first, and a name with a leading zero
abbrev twice : Value
twice = dict (
    item (codes "name") (str (codes "bench"))
    ∷ item (codes "adapter") (str (codes "runtime"))
    ∷ item (codes "runtime") (
        dict (
          item (codes "buses")
            (arr (of_list (bus_item (codes "main") (codes "i2c") (codes "i2c-1") [] ∷ [])))
          ∷ item (codes "devices") (arr (of_list (sensor ∷ sensor ∷ [])))
          ∷ []))
    ∷ [])

twice-refused : normalize_model twice ≡ raise runtime_error
unfolding normalize_model expect_string expect_name expect_hex_int expect_bytes is_index
    is_port_name strip lstrip rstrip is_space digit_of digits ungroup magnitude int_literal
    hex_digits hex_key fromhex decimal_digits lookup insert decimal split_digits normalize_faults
    normalize_uart_settings normalize_bank normalize_i2c_registers add_sorted collect
    collect_registers normalize_bus normalize_device normalize_backend normalize_place
    normalize_buses normalize_devices
twice-refused = refl

leading_zero-refused :
    normalize_bus (bus_item (codes "main") (codes "i2c") (codes "i2c-01") []) ≡ raise runtime_error
unfolding normalize_model expect_string expect_name expect_hex_int expect_bytes is_index
    is_port_name strip lstrip rstrip is_space digit_of digits ungroup magnitude int_literal
    hex_digits hex_key fromhex decimal_digits lookup insert decimal split_digits normalize_faults
    normalize_uart_settings normalize_bank normalize_i2c_registers add_sorted collect
    collect_registers normalize_bus normalize_device normalize_backend normalize_place
    normalize_buses normalize_devices
leading_zero-refused = refl
