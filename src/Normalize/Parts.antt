-- ===== src/Normalize/Parts.antt =====
-- src/sensorium/runtime/model_base.py and model_normalize.py: what a device's mapping holds in parts. The
-- keys `0x..` and the hex texts of a normalized part are the numbers and bytes that they are read to.
use sensorium.Base.{
  ℕ, ◌-◌, Bool, true, false, List, [], ◌∷◌, Option, none, some, if◌then◌else◌, leb, ltb, ◌==◌,
  Bytes, Text, codes, lookup, insert, bytes_eq, pos,
}
use sensorium.Base.Result.{Result, ok, ◌>>=◌}
use sensorium.Device.{
  Fault, FaultMode, fault_none, fault_timeout, fault_errno, fault_disconnect, fault_short_reply,
  SpiSettings, UartSettings, Parity, parity_none, parity_odd, parity_even,
}
use sensorium.Template.I2c
use sensorium.Normalize.Values.{
  Value, null, bool, int, str, Fields, get, or_else, pairs, to_list, expect_mapping, expect_list,
  expect_bool,
}
use sensorium.Normalize.Words.{hex_key}
use sensorium.Normalize.Expect.{found, expect_string, expect_hex_int, expect_bytes}

-- the names of RUNTIME_FAULT_MODES
abbrev pub fault_modes : List (Text × FaultMode)
fault_modes =
    (codes "none", fault_none)
    ∷ (codes "timeout", fault_timeout)
    ∷ (codes "errno", fault_errno)
    ∷ (codes "disconnect", fault_disconnect)
    ∷ (codes "short-reply", fault_short_reply)
    ∷ []

-- UART_PARITY_MODES
abbrev pub parities : List (Text × Parity)
parities =
    (codes "none", parity_none) ∷ (codes "even", parity_even) ∷ (codes "odd", parity_odd) ∷ []

-- a text that must be one of some names
abbrev pub one_of {ℓ} : {A : Type ℓ} → List (Text × A) → Value → Result A
one_of names v = expect_string v >>= λ t. found (lookup bytes_eq t names)

-- the value of a key that is optional, if the key is there
abbrev pub optional : {A : Type 0} → (Value → Result A) → Option Value → Result (Option A)
optional expect none = ok none
optional expect (some v) = expect v >>= λ a. ok (some a)

abbrev pub required : {A : Type 0} → (Value → Result A) → Value → Result (Option A)
required expect v = expect v >>= λ a. ok (some a)

abbrev pub fault_errno_of : FaultMode → Option Value → Result (Option ℕ)
fault_errno_of fault_errno v = required (expect_hex_int 1 (some 4095)) (or_else (int (pos 5)) v)
fault_errno_of _ v = optional (expect_hex_int 1 (some 4095)) v

abbrev pub fault_reply_of : FaultMode → Option Value → Result (Option Bytes)
fault_reply_of fault_short_reply v = required expect_bytes (or_else (str []) v)
fault_reply_of _ v = optional expect_bytes v

-- `normalize_faults`
unfoldable pub normalize_faults : Value → Result Fault
normalize_faults v = do
  fs ← expect_mapping v
  mode ← one_of fault_modes (or_else (str (codes "none")) (get (codes "mode") fs))
  remaining ← expect_hex_int 0 none (or_else (int (pos 0)) (get (codes "remaining") fs))
  errno ← fault_errno_of mode (get (codes "errno") fs)
  reply_data ← fault_reply_of mode (get (codes "reply_data") fs)
  ok (record { mode = mode; remaining = remaining; errno = errno; reply_data = reply_data })

-- `normalize_spi_settings`
unfoldable pub normalize_spi_settings : Value → Result SpiSettings
normalize_spi_settings v = do
  fs ← expect_mapping v
  mode ← expect_hex_int 0 (some 3) (or_else (int (pos 0)) (get (codes "mode") fs))
  bits ← expect_hex_int 1 (some 32) (or_else (int (pos 8)) (get (codes "bits_per_word") fs))
  speed ← expect_hex_int 1 none (or_else (int (pos 500000)) (get (codes "max_speed_hz") fs))
  ok (record { mode = mode; bits_per_word = bits; max_speed_hz = speed })

-- `normalize_uart_settings`
unfoldable pub normalize_uart_settings : Value → Result UartSettings
normalize_uart_settings v = do
  fs ← expect_mapping v
  parity ← one_of parities (or_else (str (codes "none")) (get (codes "parity") fs))
  data_bits ← expect_hex_int 5 (some 8) (or_else (int (pos 8)) (get (codes "data_bits") fs))
  stop_bits ← expect_hex_int 1 (some 2) (or_else (int (pos 1)) (get (codes "stop_bits") fs))
  baud ← expect_hex_int 1 none (or_else (int (pos 115200)) (get (codes "baud_rate") fs))
  xonxoff ← expect_bool (or_else (bool false) (get (codes "xonxoff") fs))
  rtscts ← expect_bool (or_else (bool false) (get (codes "rtscts") fs))
  ok (record {
    baud_rate = baud;
    data_bits = data_bits;
    parity = parity;
    stop_bits = stop_bits;
    xonxoff = xonxoff;
    rtscts = rtscts;
    flags = none;
  })

-- a loop over the items of a mapping, which fills a dictionary
unfoldable pub collect :
    {K V : Type 0}
    → (K → K → Bool)
    → (Value → Result K)
    → (Value → Result V)
    → List (K × V)
    → List (Value × Value)
    → Result (List (K × V))
collect eq key value acc [] = ok acc
collect eq key value acc ((k, v) ∷ rest) = do
  k' ← key k
  v' ← value v
  collect eq key value (insert eq k' v' acc) rest

-- `normalize_i2c_registers`
unfoldable pub normalize_i2c_registers : ℕ → Value → Result (List (ℕ × ℕ))
normalize_i2c_registers maximum v = do
  fs ← expect_mapping v
  collect ◌==◌ (expect_hex_int 0 (some maximum)) (expect_hex_int 0 (some 255)) [] (pairs fs)

-- the order of texts
abbrev pub text_lt : Text → Text → Bool
text_lt [] [] = false
text_lt [] (d ∷ t) = true
text_lt (c ∷ s) [] = false
text_lt (c ∷ s) (d ∷ t) = if ltb c d then true else if c == d then text_lt s t else false

-- one more key in `sorted(set(keys))`, in the order of the keys' texts
unfoldable pub add_sorted : (ℕ → Text) → ℕ → List ℕ → List ℕ
add_sorted key n [] = n ∷ []
add_sorted key n (m ∷ ms) =
    if text_lt (key n) (key m)
    then n ∷ m ∷ ms
    else if bytes_eq (key n) (key m)
    then m ∷ ms
    else m ∷ add_sorted key n ms

-- `2 if size <= 0x100 else 4`
abbrev pub key_width : ℕ → ℕ
key_width size = if leb size 256 then 2 else 4

-- the loop over `clear_on_read`, and its sorting
unfoldable pub collect_registers : ℕ → List ℕ → List Value → Result (List ℕ)
collect_registers size acc [] = ok acc
collect_registers size acc (v ∷ vs) = do
  register ← expect_hex_int 0 (some (size - 1)) v
  collect_registers size (add_sorted (hex_key (key_width size)) register acc) vs

-- the `i2c` part of a template's backend
unfoldable pub normalize_bank : Fields → Result I2c.Backend
normalize_bank fs = do
  size ← expect_hex_int 1 (some 262144) (or_else (int (pos 256)) (get (codes "size") fs))
  width ← expect_hex_int 1 (some 2) (or_else (int (pos 1)) (get (codes "pointer_width") fs))
  auto ← expect_bool (or_else (bool true) (get (codes "auto_increment") fs))
  registers ←
      normalize_i2c_registers (size - 1)
        (or_else (Value.obj Fields.end) (get (codes "registers") fs))
  clear_items ← expect_list (or_else null (get (codes "clear_on_read") fs))
  clear ← collect_registers size [] (to_list clear_items)
  effects ← expect_mapping (or_else null (get (codes "write_effects") fs))
  write_effects ←
      collect ◌==◌ (expect_hex_int 0 (some (size - 1))) (normalize_i2c_registers (size - 1)) []
        (pairs effects)
  ok (record {
    size = size;
    pointer_width = width;
    auto_increment = auto;
    registers = registers;
    clear_on_read = clear;
    write_effects = write_effects;
  })
