-- ===== src/Normalize/Export.antt =====
-- src/sensorium/runtime/state.py, `_export_model_locked`, and the mappings that
-- src/sensorium/runtime/model_normalize.py and model_base.py build: a normalized model as a value again.
use sensorium.Base.{ℕ, List, [], ◌∷◌, ◌++◌, map, Option, none, some, Bytes, Text, codes, pos}
use sensorium.Device.{
  Fault, FaultMode, fault_none, fault_timeout, fault_errno, fault_disconnect, fault_short_reply,
  SpiSettings, UartSettings, Parity, parity_none, parity_odd, parity_even, Transport, i2c, spi,
  uart,
}
use sensorium.Template.I2c
use sensorium.Runtime.Inventory.{BusSpec}
use sensorium.Normalize.Values.{Value, bool, int, str, arr, obj, of_list, of_pairs}
use sensorium.Normalize.Words.{hex_key, bytes_hex}
use sensorium.Normalize.Parts.{key_width}
use sensorium.Normalize.Items.{
  TemplateKind, register_bank, spi_kind, uart_kind, WorkerItem, BackendItem, by_template,
  by_controller, Flash, SpiScript, UartScript, Place, i2c_place, spi_place, uart_place, DeviceItem,
}

abbrev pub Entries : Type 0
Entries = List (Value × Value)

abbrev pub number_value : ℕ → Value
number_value n = int (pos n)

abbrev pub bytes_value : Bytes → Value
bytes_value bs = str (bytes_hex bs)

abbrev pub dict_value : Entries → Value
dict_value kvs = obj (of_pairs kvs)

-- a key of a mapping
abbrev pub key_text : Text → Value
key_text t = str t

-- a dictionary by the values of its keys and its values
abbrev pub entries : {K V : Type 0} → (K → Value) → (V → Value) → List (K × V) → Entries
entries key value [] = []
entries key value ((k, v) ∷ m) = (key k, value v) ∷ entries key value m

abbrev pub mapping_value : {K V : Type 0} → (K → Value) → (V → Value) → List (K × V) → Value
mapping_value key value m = dict_value (entries key value m)

-- a key that is there or not
abbrev pub if_some : {A : Type 0} → Text → (A → Value) → Option A → Entries
if_some key value none = []
if_some key value (some a) = (str key, value a) ∷ []

abbrev pub mode_text : FaultMode → Text
mode_text fault_none = codes "none"
mode_text fault_timeout = codes "timeout"
mode_text fault_errno = codes "errno"
mode_text fault_disconnect = codes "disconnect"
mode_text fault_short_reply = codes "short-reply"

abbrev pub fault_value : Fault → Value
fault_value f = dict_value (
    (str (codes "mode"), str (mode_text f.mode))
    ∷ (str (codes "remaining"), number_value f.remaining)
    ∷ (if_some (codes "errno") number_value f.errno
        ++ if_some (codes "reply_data") bytes_value f.reply_data))

abbrev pub spi_settings_value : SpiSettings → Value
spi_settings_value s = dict_value (
    (str (codes "mode"), number_value s.mode)
    ∷ (str (codes "bits_per_word"), number_value s.bits_per_word)
    ∷ (str (codes "max_speed_hz"), number_value s.max_speed_hz)
    ∷ [])

abbrev pub parity_text : Parity → Text
parity_text parity_none = codes "none"
parity_text parity_odd = codes "odd"
parity_text parity_even = codes "even"

-- the termios words, which only a configured port has
abbrev flag_entries : Option (ℕ × ℕ × ℕ × ℕ) → Entries
flag_entries none = []
flag_entries (some (cflag, iflag, oflag, lflag)) =
    (str (codes "cflag"), number_value cflag)
    ∷ (str (codes "iflag"), number_value iflag)
    ∷ (str (codes "oflag"), number_value oflag)
    ∷ (str (codes "lflag"), number_value lflag)
    ∷ []

abbrev pub uart_settings_value : UartSettings → Value
uart_settings_value s = dict_value (
    (str (codes "baud_rate"), number_value s.baud_rate)
    ∷ (str (codes "data_bits"), number_value s.data_bits)
    ∷ (str (codes "parity"), str (parity_text s.parity))
    ∷ (str (codes "stop_bits"), number_value s.stop_bits)
    ∷ (str (codes "xonxoff"), bool s.xonxoff)
    ∷ (str (codes "rtscts"), bool s.rtscts)
    ∷ flag_entries s.flags)

abbrev pub transport_text : Transport → Text
transport_text i2c = codes "i2c"
transport_text spi = codes "spi"
transport_text uart = codes "uart"

-- `_snapshot_bus`, which has no metadata
abbrev pub bus_value : BusSpec → Value
bus_value b = dict_value (
    (str (codes "id"), str b.id)
    ∷ (str (codes "transport"), str (transport_text b.transport))
    ∷ (str (codes "name"), str b.name)
    ∷ [])

-- the key of a register, as `int(_, 0)` reads it back
abbrev pub register_value : ℕ → ℕ → Value
register_value size n = str (hex_key (key_width size) n)

abbrev pub registers_value : ℕ → List (ℕ × ℕ) → Value
registers_value size = mapping_value (register_value size) number_value

abbrev pub bank_entries : I2c.Backend → Entries
bank_entries b =
    (str (codes "size"), number_value b.size)
    ∷ (str (codes "pointer_width"), number_value b.pointer_width)
    ∷ (str (codes "auto_increment"), bool b.auto_increment)
    ∷ (str (codes "registers"), registers_value b.size b.registers)
    ∷ (str (codes "clear_on_read"), arr (of_list (map (register_value b.size) b.clear_on_read)))
    ∷ (
      str (codes "write_effects"),
      mapping_value (register_value b.size) (registers_value b.size) b.write_effects,
    )
    ∷ []

abbrev pub flash_entries : Option Flash → Entries
flash_entries none = []
flash_entries (some f) =
    (str (codes "flash_jedec_id"), bytes_value f.jedec_id)
    ∷ (str (codes "flash_status_register"), number_value f.status_register)
    ∷ (str (codes "flash_write_busy_cycles"), number_value f.write_busy_cycles)
    ∷ []

abbrev pub spi_entries : SpiScript → Entries
spi_entries s =
    (str (codes "responses"), mapping_value bytes_value bytes_value s.responses)
    ∷ (str (codes "prefix_responses"), mapping_value bytes_value bytes_value s.prefix_responses)
    ∷ (str (codes "default_response"), bytes_value s.default_response)
    ∷ (str (codes "echo"), bool s.echo)
    ∷ flash_entries s.flash

abbrev pub uart_entries : UartScript → Entries
uart_entries s =
    (str (codes "echo"), bool s.echo)
    ∷ (str (codes "line_responses"), mapping_value key_text key_text s.line_responses)
    ∷ (str (codes "binary_responses"), mapping_value bytes_value bytes_value s.binary_responses)
    ∷ (str (codes "default_response"), bytes_value s.default_response)
    ∷ (str (codes "control_defaults"), mapping_value key_text bool s.control_defaults)
    ∷ (str (codes "cts_follows_rts"), bool s.cts_follows_rts)
    ∷ (str (codes "carrier_follows_dtr"), bool s.carrier_follows_dtr)
    ∷ []

abbrev pub kind_text : TemplateKind → Text
kind_text register_bank = codes "i2c-register-bank"
kind_text spi_kind = codes "spi-script"
kind_text uart_kind = codes "uart-script"

-- an empty environment has no key
abbrev pub env_entries : List (Text × Text) → Entries
env_entries [] = []
env_entries (e ∷ es) = (str (codes "env"), mapping_value key_text key_text (e ∷ es)) ∷ []

abbrev pub worker_value : WorkerItem → Value
worker_value w = dict_value (
    (str (codes "command"), arr (of_list (map key_text w.command)))
    ∷ (str (codes "restart_limit"), number_value w.restart_limit)
    ∷ (str (codes "restart_backoff_ms"), number_value w.restart_backoff_ms)
    ∷ (if_some (codes "cwd") key_text w.cwd ++ env_entries w.env))

abbrev pub script_entries : {A : Type 0} → (A → Entries) → Option A → Entries
script_entries value none = []
script_entries value (some s) = value s

-- the keys of a backend that the transport's part fills in
abbrev pub place_script : Place → Entries
place_script (i2c_place address script) = script_entries bank_entries script
place_script (spi_place chip_select name settings script) = script_entries spi_entries script
place_script (uart_place port settings script) = script_entries uart_entries script

abbrev pub backend_entries : BackendItem → Entries
backend_entries (by_template kind) =
    (str (codes "kind"), str (codes "template"))
    ∷ (str (codes "template"), str (kind_text kind))
    ∷ []
backend_entries (by_controller worker) =
    (str (codes "kind"), str (codes "controller")) ∷ if_some (codes "worker") worker_value worker

abbrev pub transport_of : Place → Transport
transport_of (i2c_place address script) = i2c
transport_of (spi_place chip_select name settings script) = spi
transport_of (uart_place port settings script) = uart

abbrev pub place_entries : Place → Entries
place_entries (i2c_place address script) =
    (str (codes "address"), number_value address) ∷ (str (codes "settings"), dict_value []) ∷ []
place_entries (spi_place chip_select name settings script) =
    (str (codes "chip_select"), number_value chip_select)
    ∷ (str (codes "device_name"), str name)
    ∷ (str (codes "settings"), spi_settings_value settings)
    ∷ []
place_entries (uart_place port settings script) =
    (str (codes "port_name"), str port)
    ∷ (str (codes "settings"), uart_settings_value settings)
    ∷ []

-- `_snapshot_device`
abbrev pub device_value : DeviceItem → Value
device_value d = dict_value (
    (str (codes "id"), str d.id)
    ∷ (str (codes "bus"), str d.bus)
    ∷ (str (codes "transport"), str (transport_text (transport_of d.place)))
    ∷ (str (codes "backend"), dict_value (backend_entries d.backend ++ place_script d.place))
    ∷ (str (codes "metadata"), obj d.metadata)
    ∷ (str (codes "faults"), fault_value d.faults)
    ∷ place_entries d.place)

-- `_export_model_locked`
abbrev pub model_entries : Text → List BusSpec → List DeviceItem → Entries
model_entries name buses devices =
    (str (codes "name"), str name)
    ∷ (str (codes "schema_version"), number_value 2)
    ∷ (str (codes "adapter"), str (codes "runtime"))
    ∷ (
      str (codes "runtime"),
      dict_value (
          (str (codes "buses"), arr (of_list (map bus_value buses)))
          ∷ (str (codes "devices"), arr (of_list (map device_value devices)))
          ∷ []),
    )
    ∷ []
