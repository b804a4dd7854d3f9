-- ===== src/Template/I2c/Tests.antt =====
-- The register bank at concrete inputs.
use sensorium.Base.{
  ◌≡◌, refl, true, List, [], ◌∷◌, arith, length, get_or, from_be, lookup, if◌then◌else◌, ◌&&◌,
}
use sensorium.Template.I2c.{
  Backend, Bank, Message, init, handle_read, handle_i2c, elem, read_window, clear_window,
  store_payload, run_effects, load_registers,
}
use sensorium.Template.I2c.Bounds.{IsValid, handle_i2c-IsValid, init-IsValid, length-handle_i2c}
use sensorium.Template.I2c.Transfer.{
  write_message, read_message, write_then_read, read_clears, covers,
}

abbrev eeprom : Bank
eeprom = record {
  size = 4;
  pointer_width = 1;
  auto_increment = true;
  registers = 10 ∷ 11 ∷ 12 ∷ 13 ∷ [];
  pointer = 2;
  clear_on_read = 3 ∷ [];
  write_effects = [];
}

abbrev transfer : List Message
transfer = write_message (3 ∷ 7 ∷ 8 ∷ []) ∷ write_message (3 ∷ []) ∷ read_message 2 ∷ []

-- the second byte goes round the end of the bank, and register 3 clears behind the read
transfer_runs :
    handle_i2c eeprom transfer
    ≡ (record eeprom { registers = 8 ∷ 11 ∷ 12 ∷ 0 ∷ []; pointer = 1 }, 7 ∷ 8 ∷ [])
unfolding handle_i2c read_window clear_window store_payload run_effects elem from_be lookup
transfer_runs = refl

eeprom-IsValid : IsValid eeprom
eeprom-IsValid = omega arith

handle_i2c-IsValid_example : IsValid (handle_i2c eeprom transfer).0
handle_i2c-IsValid_example = handle_i2c-IsValid eeprom transfer eeprom-IsValid

abbrev config : Backend
config = record {
  size = 4;
  pointer_width = 1;
  auto_increment = true;
  registers = (1, 9) ∷ [];
  clear_on_read = [];
  write_effects = (0, (2, 5) ∷ []) ∷ [];
}

-- a write to register 0 sets register 2 too
effects_run :
    (handle_i2c
      (init config)
      (write_message (0 ∷ 1 ∷ []) ∷ write_message (0 ∷ []) ∷ read_message 4 ∷ [])).1
    ≡ 1 ∷ 9 ∷ 5 ∷ 0 ∷ []
unfolding init load_registers handle_i2c read_window clear_window store_payload run_effects elem
    from_be lookup
effects_run = refl

init-IsValid_example : IsValid (init config)
init-IsValid_example = init-IsValid config (omega arith)

length-handle_i2c_example : length (handle_i2c eeprom transfer).1 ≡ 2
length-handle_i2c_example = length-handle_i2c eeprom transfer

write_then_read_example : (handle_i2c eeprom transfer).1 ≡ 7 ∷ 8 ∷ []
write_then_read_example =
    write_then_read eeprom (3 ∷ []) (7 ∷ 8 ∷ []) eeprom-IsValid refl (omega arith) refl
      (omega arith)

read_clears_example :
    get_or (handle_read eeprom (read_message 2)).0.registers 3 0
    ≡ (if covers 4 2 2 3 && elem 3 (3 ∷ []) then 0 else 13)
read_clears_example = read_clears eeprom (read_message 2) 3
