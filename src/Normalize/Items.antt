-- ===== src/Normalize/Items.antt =====
-- src/sensorium/runtime/model_normalize.py: a bus and a device of a runtime model. Metadata are checked to be
-- a mapping and not kept, since nothing reads them.
use sensorium.Base.{
  ℕ, Bool, true, false, not, List, [], ◌∷◌, ◌++◌, Option, none, some, Bytes, Text, codes, lookup,
  bytes_eq, length, drop, pos,
}
use sensorium.Base.Result.{Result, ok, ◌>>=◌}
use sensorium.Device.{Fault, SpiSettings, UartSettings, Transport, i2c, spi, uart}
use sensorium.Template.I2c
use sensorium.Bridge.Protocol.{decimal}
use sensorium.Runtime.Inventory.{BusSpec}
use sensorium.Normalize.Values.{
  Value, null, bool, int, str, Fields, get, or_else, pairs, to_list, expect_mapping, expect_list,
  expect_bool,
}
use sensorium.Normalize.Words.{is_empty, decimal_digits}
use sensorium.Normalize.Expect.{
  checked, found, text_where, is_i2c_bus_name, is_spi_bus_name, is_port_name, expect_name,
  expect_string, expect_text, expect_hex_int, expect_bytes,
}
use sensorium.Normalize.Parts.{
  one_of, optional, collect, normalize_faults, normalize_spi_settings, normalize_uart_settings,
  normalize_bank,
}

-- RUNTIME_TRANSPORTS
abbrev pub transports : List (Text × Transport)
transports = (codes "i2c", i2c) ∷ (codes "spi", spi) ∷ (codes "uart", uart) ∷ []

abbrev pub same_transport : Transport → Transport → Bool
same_transport i2c i2c = true
same_transport spi spi = true
same_transport uart uart = true
same_transport _ _ = false

-- the name of a bus, by its transport
abbrev pub expect_bus_name : Transport → Value → Result Text
expect_bus_name i2c v = text_where is_i2c_bus_name v
expect_bus_name spi v = text_where is_spi_bus_name v
expect_bus_name uart v = expect_name v

-- `normalize_runtime_bus_item`
unfoldable pub normalize_bus : Value → Result BusSpec
normalize_bus v = do
  item ← expect_mapping v
  id ← expect_name (or_else null (get (codes "id") item))
  transport ← one_of transports (or_else null (get (codes "transport") item))
  name ← expect_bus_name transport (or_else null (get (codes "name") item))
  metadata ← expect_mapping (or_else null (get (codes "metadata") item))
  ok (record { id = id; transport = transport; name = name })

-- RUNTIME_TEMPLATE_KINDS
pub data TemplateKind : Type 0 where
  register_bank spi_kind uart_kind : TemplateKind

abbrev pub template_kinds : List (Text × TemplateKind)
template_kinds =
    (codes "i2c-register-bank", register_bank)
    ∷ (codes "spi-script", spi_kind)
    ∷ (codes "uart-script", uart_kind)
    ∷ []

pub record WorkerItem : Type 0 where
  pub command : List Text
  pub restart_limit : ℕ
  pub restart_backoff_ms : ℕ
  pub cwd : Option Text
  pub env : List (Text × Text)

-- the part of a normalized backend that does not depend on the transport
pub data BackendItem : Type 0 where
  by_template : TemplateKind → BackendItem
  by_controller : Option WorkerItem → BackendItem

abbrev pub is_template : BackendItem → Bool
is_template (by_template kind) = true
is_template (by_controller worker) = false

unfoldable pub expect_strings : List Value → Result (List Text)
expect_strings [] = ok []
expect_strings (v ∷ vs) = expect_string v >>= λ t. expect_strings vs >>= λ ts. ok (t ∷ ts)

unfoldable pub normalize_worker : Value → Result WorkerItem
normalize_worker v = do
  fs ← expect_mapping v
  command_items ← expect_list (or_else null (get (codes "command") fs))
  command ← expect_strings (to_list command_items)
  kept ← checked (not (is_empty command)) command
  limit ← expect_hex_int 0 (some 255) (or_else (int (pos 3)) (get (codes "restart_limit") fs))
  backoff ←
      expect_hex_int 0 (some 60000) (or_else (int (pos 250)) (get (codes "restart_backoff_ms") fs))
  cwd ← optional expect_string (get (codes "cwd") fs)
  env_items ← expect_mapping (or_else null (get (codes "env") fs))
  env ← collect bytes_eq expect_string expect_string [] (pairs env_items)
  ok (record {
    command = kept;
    restart_limit = limit;
    restart_backoff_ms = backoff;
    cwd = cwd;
    env = env;
  })

-- the key `worker`, for which a null stands for no key
abbrev pub worker_of : Value → Result (Option WorkerItem)
worker_of null = ok none
worker_of v = normalize_worker v >>= λ w. ok (some w)

abbrev pub kinds : List (Text × Bool)
kinds = (codes "template", true) ∷ (codes "controller", false) ∷ []

abbrev pub backend_by_kind : Bool → Fields → Result BackendItem
backend_by_kind true fs =
    one_of template_kinds (or_else null (get (codes "template") fs)) >>= λ k. ok (by_template k)
backend_by_kind false fs =
    worker_of (or_else null (get (codes "worker") fs)) >>= λ w. ok (by_controller w)

unfoldable pub normalize_backend : Fields → Result BackendItem
normalize_backend fs =
    one_of kinds (or_else null (get (codes "kind") fs)) >>= λ kind. backend_by_kind kind fs

pub record Flash : Type 0 where
  pub jedec_id : Bytes
  pub status_register : ℕ
  pub write_busy_cycles : ℕ

pub record SpiScript : Type 0 where
  pub responses : List (Bytes × Bytes)
  pub prefix_responses : List (Bytes × Bytes)
  pub default_response : Bytes
  pub echo : Bool
  pub flash : Option Flash

abbrev pub flash_of : Option Value → Fields → Result (Option Flash)
flash_of none fs = ok none
flash_of (some v) fs = do
  jedec_id ← expect_bytes v
  status ←
      expect_hex_int 0 (some 255) (or_else (int (pos 0)) (get (codes "flash_status_register") fs))
  cycles ←
      expect_hex_int 0 (some 255) (or_else (int (pos 0)) (get (codes "flash_write_busy_cycles") fs))
  ok (some (record { jedec_id = jedec_id; status_register = status; write_busy_cycles = cycles }))

-- the `spi` part of a template's backend
unfoldable pub normalize_spi_script : Fields → Result SpiScript
normalize_spi_script fs = do
  rs ← expect_mapping (or_else null (get (codes "responses") fs))
  responses ← collect bytes_eq expect_bytes expect_bytes [] (pairs rs)
  ps ← expect_mapping (or_else null (get (codes "prefix_responses") fs))
  prefixes ← collect bytes_eq expect_bytes expect_bytes [] (pairs ps)
  default_response ← expect_bytes (or_else (str []) (get (codes "default_response") fs))
  echo ← expect_bool (or_else (bool false) (get (codes "echo") fs))
  flash ← flash_of (get (codes "flash_jedec_id") fs) fs
  ok (record {
    responses = responses;
    prefix_responses = prefixes;
    default_response = default_response;
    echo = echo;
    flash = flash;
  })

pub record UartScript : Type 0 where
  pub echo : Bool
  pub line_responses : List (Text × Text)
  pub binary_responses : List (Bytes × Bytes)
  pub default_response : Bytes
  pub control_defaults : List (Text × Bool)
  pub cts_follows_rts : Bool
  pub carrier_follows_dtr : Bool

-- the `uart` part of a template's backend
unfoldable pub normalize_uart_script : Fields → Result UartScript
normalize_uart_script fs = do
  ls ← expect_mapping (or_else null (get (codes "line_responses") fs))
  lines ← collect bytes_eq expect_string expect_text [] (pairs ls)
  bs ← expect_mapping (or_else null (get (codes "binary_responses") fs))
  binaries ← collect bytes_eq expect_bytes expect_bytes [] (pairs bs)
  echo ← expect_bool (or_else (bool true) (get (codes "echo") fs))
  default_response ← expect_bytes (or_else (str []) (get (codes "default_response") fs))
  cs ← expect_mapping (or_else null (get (codes "control_defaults") fs))
  controls ← collect bytes_eq expect_string expect_bool [] (pairs cs)
  cts ← expect_bool (or_else (bool false) (get (codes "cts_follows_rts") fs))
  carrier ← expect_bool (or_else (bool false) (get (codes "carrier_follows_dtr") fs))
  ok (record {
    echo = echo;
    line_responses = lines;
    binary_responses = binaries;
    default_response = default_response;
    control_defaults = controls;
    cts_follows_rts = cts;
    carrier_follows_dtr = carrier;
  })

-- the part of a normalized device that depends on the transport; a script only for a template
pub data Place : Type 0 where
  i2c_place : ℕ → Option I2c.Backend → Place
  spi_place : ℕ → Text → SpiSettings → Option SpiScript → Place
  uart_place : Text → UartSettings → Option UartScript → Place

pub record DeviceItem : Type 0 where
  pub id : Text
  pub bus : Text
  pub backend : BackendItem
  pub metadata : Fields
  pub faults : Fault
  pub place : Place

abbrev pub if_template : {A : Type 0} → Bool → Result A → Result (Option A)
if_template true r = r >>= λ a. ok (some a)
if_template false r = ok none

-- `spidev{bus_index}.{chip_select}`
unfoldable pub spidev_name : Text → ℕ → Text
spidev_name bus_name chip_select =
    let index = drop 3 bus_name in
    codes "spidev"
    ++ (decimal_digits (length index) (decimal 0 index) []
        ++ (b'.' ∷ decimal_digits 3 chip_select []))

unfoldable pub normalize_place : Transport → Text → BackendItem → Fields → Fields → Result Place
normalize_place i2c bus_name backend fs item = do
  address ← expect_hex_int 0 (some 127) (or_else null (get (codes "address") item))
  script ← if_template (is_template backend) (normalize_bank fs)
  ok (i2c_place address script)
normalize_place spi bus_name backend fs item = do
  chip_select ← expect_hex_int 0 (some 255) (or_else null (get (codes "chip_select") item))
  name ←
      expect_name
        (or_else (str (spidev_name bus_name chip_select)) (get (codes "device_name") item))
  device_name ← checked (bytes_eq name (spidev_name bus_name chip_select)) name
  settings ← normalize_spi_settings (or_else null (get (codes "settings") item))
  script ← if_template (is_template backend) (normalize_spi_script fs)
  ok (spi_place chip_select device_name settings script)
normalize_place uart bus_name backend fs item = do
  port_name ←
      text_where is_port_name
        (or_else (or_else null (get (codes "device_name") item)) (get (codes "port_name") item))
  settings ← normalize_uart_settings (or_else null (get (codes "settings") item))
  script ← if_template (is_template backend) (normalize_uart_script fs)
  ok (uart_place port_name settings script)

-- `normalize_runtime_device_item`
unfoldable pub normalize_device : List (Text × BusSpec) → Value → Result DeviceItem
normalize_device buses v = do
  item ← expect_mapping v
  id ← expect_name (or_else null (get (codes "id") item))
  bus_id ← expect_name (or_else null (get (codes "bus") item))
  bus ← found (lookup bytes_eq bus_id buses)
  transport ← one_of transports (or_else null (get (codes "transport") item))
  matching ← checked (same_transport transport bus.transport) transport
  fs ← expect_mapping (or_else null (get (codes "backend") item))
  backend ← normalize_backend fs
  metadata ← expect_mapping (or_else null (get (codes "metadata") item))
  faults ← normalize_faults (or_else null (get (codes "faults") item))
  place ← normalize_place matching bus.name backend fs item
  ok (record {
    id = id;
    bus = bus_id;
    backend = backend;
    metadata = metadata;
    faults = faults;
    place = place;
  })
