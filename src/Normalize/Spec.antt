-- ===== src/Normalize/Spec.antt =====
-- src/sensorium/runtime/inventory.py, `_build_template` and `_add_device_locked`, and the constructors of
-- src/sensorium/runtime/templates.py: a normalized device as the one that is added. A backend's template need not be
-- that of its transport: a constructor then takes its defaults, and `echo` and `default_response` where the
-- other part has them.
pub mod Placed
use sensorium.Base.{ℕ, Bool, true, false, List, [], ◌∷◌, map, Option, none, some, Text, Bytes}
use sensorium.Device.{
  Backend, template_backend, controller_backend, TemplateSpec, i2c_register_bank, spi_script,
  uart_script, Worker, Settings, i2c_settings, spi_settings, uart_settings,
}
use sensorium.Template.I2c
use sensorium.Template.Spi
use sensorium.Template.Uart
use sensorium.Runtime.Inventory.{BusSpec, DeviceSpec, Model}
use sensorium.Normalize.Expect.{utf8}
use sensorium.Normalize.Items.{
  TemplateKind, register_bank, spi_kind, uart_kind, WorkerItem, BackendItem, by_template,
  by_controller, Flash, SpiScript, UartScript, Place, i2c_place, spi_place, uart_place, DeviceItem,
}
use sensorium.Normalize.Export.{transport_of}
use sensorium.Normalize.{ModelItem}

abbrev default_bank : I2c.Backend
default_bank = record {
  size = 256;
  pointer_width = 1;
  auto_increment = true;
  registers = [];
  clear_on_read = [];
  write_effects = [];
}

-- `backend.get("echo", default)` and `backend.get("default_response", "")`
abbrev echo_of : Bool → Place → Bool
echo_of default (spi_place c n st (some s)) = s.echo
echo_of default (uart_place p st (some s)) = s.echo
echo_of default _ = default

abbrev default_response_of : Place → Bytes
default_response_of (spi_place c n st (some s)) = s.default_response
default_response_of (uart_place p st (some s)) = s.default_response
default_response_of _ = []

abbrev bank_of : Place → I2c.Backend
bank_of (i2c_place a (some b)) = b
bank_of _ = default_bank

abbrev jedec_of : Option Flash → Bytes
jedec_of none = []
jedec_of (some f) = f.jedec_id

abbrev status_of : Option Flash → ℕ
status_of none = 0
status_of (some f) = f.status_register

abbrev cycles_of : Option Flash → ℕ
cycles_of none = 0
cycles_of (some f) = f.write_busy_cycles

-- the keys that SPIScriptTemplate reads
abbrev spi_of : Place → Spi.Backend
spi_of (spi_place c n st (some s)) = record {
  responses = s.responses;
  prefix_responses = s.prefix_responses;
  default_response = s.default_response;
  echo = s.echo;
  flash_jedec_id = jedec_of s.flash;
  flash_status_register = status_of s.flash;
  flash_write_busy_cycles = cycles_of s.flash;
}
spi_of p = record {
  responses = [];
  prefix_responses = [];
  default_response = default_response_of p;
  echo = echo_of false p;
  flash_jedec_id = [];
  flash_status_register = 0;
  flash_write_busy_cycles = 0;
}

abbrev encoded : List (Text × Text) → List (Text × Bytes)
encoded [] = []
encoded ((rx, tx) ∷ rest) = (rx, utf8 tx) ∷ encoded rest

-- the keys that UARTScriptTemplate reads
abbrev uart_of : Place → Uart.Script
uart_of (uart_place p st (some s)) = record {
  echo = s.echo;
  line_responses = encoded s.line_responses;
  binary_responses = s.binary_responses;
  default_response = s.default_response;
  control_defaults = s.control_defaults;
  cts_follows_rts = s.cts_follows_rts;
  carrier_follows_dtr = s.carrier_follows_dtr;
  line_buffer = [];
}
uart_of p = record {
  echo = echo_of true p;
  line_responses = [];
  binary_responses = [];
  default_response = default_response_of p;
  control_defaults = [];
  cts_follows_rts = false;
  carrier_follows_dtr = false;
  line_buffer = [];
}

abbrev template_of : TemplateKind → Place → TemplateSpec
template_of register_bank p = i2c_register_bank (bank_of p)
template_of spi_kind p = spi_script (spi_of p)
template_of uart_kind p = uart_script (uart_of p)

abbrev worker_spec : Option WorkerItem → Option Worker
worker_spec none = none
worker_spec (some w) = some (record {
  command = w.command;
  restart_limit = w.restart_limit;
  restart_backoff_ms = w.restart_backoff_ms;
})

abbrev backend_spec : BackendItem → Place → Backend
backend_spec (by_template kind) p = template_backend (template_of kind p)
backend_spec (by_controller w) p = controller_backend (worker_spec w)

abbrev address_of : Place → Option ℕ
address_of (i2c_place a s) = some a
address_of _ = none

abbrev chip_select_of : Place → Option ℕ
chip_select_of (spi_place c n st s) = some c
chip_select_of _ = none

abbrev device_name_of : Place → Option Text
device_name_of (spi_place c n st s) = some n
device_name_of _ = none

abbrev port_name_of : Place → Option Text
port_name_of (uart_place p st s) = some p
port_name_of _ = none

abbrev settings_of : Place → Settings
settings_of (i2c_place a s) = i2c_settings
settings_of (spi_place c n st s) = spi_settings st
settings_of (uart_place p st s) = uart_settings st

unfoldable pub spec_of : DeviceItem → DeviceSpec
unfolding utf8
spec_of d = record {
  id = d.id;
  bus = d.bus;
  transport = transport_of d.place;
  address = address_of d.place;
  chip_select = chip_select_of d.place;
  device_name = device_name_of d.place;
  port_name = port_name_of d.place;
  backend = backend_spec d.backend d.place;
  faults = d.faults;
  settings = settings_of d.place;
}

-- the model that `apply_model` goes on with
unfoldable pub model_of : ModelItem → Model
unfolding spec_of
model_of m = record {
  name = m.name;
  buses = map (λ (p : Text × BusSpec). p.1) m.buses;
  devices = map spec_of m.devices;
}
