-- ===== src/Template/I2c.antt =====
-- src/sensorium/runtime/templates.py, class I2CRegisterBankTemplate: a register bank behind a pointer.
-- The numbers of the backend stand for the texts that `int(_, 0)` reads.
pub mod Bounds
pub mod Transfer
mod Tests
use sensorium.Base.{
  ℕ, zero, suc, ◌+◌, ◌-◌, ◌%◌, Bool, true, false, List, [], ◌∷◌, ◌++◌, Option, none, some,
  if◌then◌else◌, ltb, ◌==◌, Bytes, length, get_or, set, take, drop, replicate, from_be, lookup,
}

-- the fields of a normalized `i2c-register-bank` backend that the class reads
pub record Backend : Type 0 where
  pub size : ℕ
  pub pointer_width : ℕ
  pub auto_increment : Bool
  pub registers : List (ℕ × ℕ)
  pub clear_on_read : List ℕ
  pub write_effects : List (ℕ × List (ℕ × ℕ))

pub record Bank : Type 0 where
  pub size : ℕ
  pub pointer_width : ℕ
  pub auto_increment : Bool
  pub registers : Bytes
  pub pointer : ℕ
  pub clear_on_read : List ℕ
  pub write_effects : List (ℕ × List (ℕ × ℕ))

-- one message of a combined transfer
pub record Message : Type 0 where
  pub addr : ℕ
  pub flags : ℕ
  pub len : ℕ
  pub payload : Bytes

unfoldable pub elem : ℕ → List ℕ → Bool
elem x [] = false
elem x (y ∷ ys) = if x == y then true else elem x ys

-- `self.registers[int(key, 0)] = value` for each item; a key past the size, at which Python raises,
-- is refused by the model's normalization
pub load_registers : List (ℕ × ℕ) → Bytes → Bytes
load_registers [] regs = regs
load_registers ((key, value) ∷ rest) regs = load_registers rest (set regs key value)

pub init : Backend → Bank
unfolding load_registers
init b = record {
  size = b.size;
  pointer_width = b.pointer_width;
  auto_increment = b.auto_increment;
  registers = load_registers b.registers (replicate b.size 0);
  pointer = 0;
  clear_on_read = b.clear_on_read;
  write_effects = b.write_effects;
}

-- `bytes(self.registers[(start + index) % self.size] for index in range(length))`
unfoldable pub read_window : Bytes → ℕ → ℕ → ℕ → Bytes
read_window regs size start zero = []
read_window regs size start (suc n) =
    get_or regs (start % size) 0 ∷ read_window regs size (start + 1) n

-- the loop that zeroes the registers which clear when they are read
unfoldable pub clear_window : List ℕ → ℕ → ℕ → ℕ → Bytes → Bytes
clear_window clear size start zero regs = regs
clear_window clear size start (suc n) regs =
    let register = start % size in
    clear_window clear size (start + 1) n
      (if elem register clear then set regs register 0 else regs)

-- the branch for `flags & I2C_M_RD`
unfoldable pub handle_read : Bank → Message → Bank × Bytes
handle_read b m =
    let start = b.pointer in
    let reply = read_window b.registers b.size start m.len in
    let regs = clear_window b.clear_on_read b.size start m.len b.registers in
    let pointer = if b.auto_increment then (start + m.len) % b.size else start in
    (record b { registers = regs; pointer = pointer }, reply)

-- the effects of one write: `for target, value in self.write_effects.get(register, {}).items()`
unfoldable pub run_effects : ℕ → List (ℕ × ℕ) → Bytes → Bytes
run_effects size [] regs = regs
run_effects size ((target, value) ∷ rest) regs =
    run_effects size rest (set regs (target % size) value)

abbrev pub effects_of : List (ℕ × List (ℕ × ℕ)) → ℕ → List (ℕ × ℕ)
effects_of effects register = elim (lookup ◌==◌ register effects) [ none ↦ [] | some l ↦ l ]

-- the loop over the bytes behind the pointer; `at` is `pointer + offset`
unfoldable pub store_payload : List (ℕ × List (ℕ × ℕ)) → ℕ → ℕ → Bytes → Bytes → Bytes
store_payload effects size at [] regs = regs
store_payload effects size at (byte ∷ rest) regs =
    let register = at % size in
    store_payload effects size (at + 1) rest
      (run_effects size (effects_of effects register) (set regs register byte))

-- the branch for a write: too short a message changes nothing, a bare pointer moves the pointer
unfoldable pub write_payload : Bank → ℕ → Bytes → Bank
write_payload b pointer [] = record b { pointer = pointer }
write_payload b pointer (byte ∷ rest) =
    let payload = byte ∷ rest in
    let regs = store_payload b.write_effects b.size pointer payload b.registers in
    record b {
      registers = regs;
      pointer = if b.auto_increment then (pointer + length payload) % b.size else pointer;
    }

unfoldable pub handle_write : Bank → Message → Bank
handle_write b m =
    if length m.payload == 0
    then b
    else if ltb (length m.payload) b.pointer_width
    then b
    else write_payload b (from_be 0 (take b.pointer_width m.payload) % b.size)
        (drop b.pointer_width m.payload)

-- `message["flags"] & 0x0001`
abbrev pub is_read : ℕ → Bool
is_read flags = flags % 2 == 1

unfoldable pub handle_i2c : Bank → List Message → Bank × Bytes
unfolding handle_read handle_write write_payload
handle_i2c b [] = (b, [])
handle_i2c b (m ∷ rest) =
    let (read, reply) = handle_read b m in
    let from_read = handle_i2c read rest in
    let from_write = handle_i2c (handle_write b m) rest in
    if is_read m.flags then (from_read.0, reply ++ from_read.1) else from_write
