-- ===== src/Template/I2c/Bounds.antt =====
-- src/sensorium/runtime/templates.py: the bank's own invariant, and the length of its replies.
use sensorium.Base.{
  ℕ, zero, suc, ◌+◌, ◌%◌, ◌<◌, ◌≡◌, refl, ◌∙◌, List, [], ◌∷◌, inl, inr, arith, if◌then◌else◌,
  Bool-cases, Bytes, length, set, take, drop, replicate, length-set, length-append,
  length-replicate, from_be,
}
use sensorium.Template.I2c.{
  Backend, Bank, Message, load_registers, init, read_window, clear_window, handle_read, run_effects,
  effects_of, elem, store_payload, write_payload, handle_write, is_read, handle_i2c,
}

pub record IsValid (b : Bank) : Type 0 where
  pub sized : length b.registers ≡ b.size
  pub nonempty : 0 < b.size
  pub pointer_in : b.pointer < b.size

pub length-load_registers :
    (items : List (ℕ × ℕ)) (regs : Bytes) → length (load_registers items regs) ≡ length regs
unfolding load_registers
length-load_registers [] regs = refl
length-load_registers ((k, v) ∷ rest) regs =
    length-load_registers rest (set regs k v) ∙ length-set regs k v

pub length-read_window :
    (regs : Bytes) (size start n : ℕ) → length (read_window regs size start n) ≡ n
unfolding read_window
length-read_window regs size start zero = refl
length-read_window regs size start (suc n) =
    omega (arith, length-read_window regs size (start + 1) n)

pub length-clear_window :
    (clear : List ℕ) (size start n : ℕ) (regs : Bytes)
    → length (clear_window clear size start n regs) ≡ length regs
unfolding clear_window
length-clear_window clear size start zero regs = refl
length-clear_window clear size start (suc n) regs = elim (Bool-cases (elem (start % size) clear)) [
  | inl e ↦ rw e (length-clear_window clear size (start + 1) n _ ∙ length-set regs _ 0)
  | inr e ↦ rw e (length-clear_window clear size (start + 1) n regs)
]

pub length-run_effects :
    (size : ℕ) (effects : List (ℕ × ℕ)) (regs : Bytes)
    → length (run_effects size effects regs) ≡ length regs
unfolding run_effects
length-run_effects size [] regs = refl
length-run_effects size ((t, v) ∷ rest) regs =
    length-run_effects size rest (set regs (t % size) v) ∙ length-set regs (t % size) v

pub length-store_payload :
    (effects : List (ℕ × List (ℕ × ℕ))) (size at : ℕ) (bs regs : Bytes)
    → length (store_payload effects size at bs regs) ≡ length regs
unfolding store_payload
length-store_payload effects size at [] regs = refl
length-store_payload effects size at (b ∷ bs) regs =
    length-store_payload effects size (at + 1) bs _
    ∙ length-run_effects size (effects_of effects (at % size)) _
    ∙ length-set regs (at % size) b

pub init-IsValid : (c : Backend) → 0 < c.size → IsValid (init c)
unfolding init
init-IsValid c h = omega (
  arith,
  length-load_registers c.registers (replicate c.size 0),
  length-replicate {A = ℕ} c.size 0,
)

handle_read-IsValid : {b : Bank} (m : Message) → IsValid b → IsValid (handle_read b m).0
unfolding handle_read
handle_read-IsValid {b} m v =
    ground (arith, length-clear_window b.clear_on_read b.size b.pointer m.len b.registers)

write_payload-IsValid :
    {b : Bank} (p : ℕ) (bs : Bytes) → IsValid b → p < b.size → IsValid (write_payload b p bs)
unfolding write_payload
write_payload-IsValid p [] v h = omega arith
write_payload-IsValid {b} p (x ∷ bs) v h =
    ground (arith, length-store_payload b.write_effects b.size p (x ∷ bs) b.registers)

handle_write-IsValid : {b : Bank} (m : Message) → IsValid b → IsValid (handle_write b m)
unfolding handle_write
handle_write-IsValid {b} m v = ground (
  arith,
  write_payload-IsValid (from_be 0 (take b.pointer_width m.payload) % b.size)
      (drop b.pointer_width m.payload) v,
)

-- `handle_i2c` keeps the bank valid, whatever the messages.
pub handle_i2c-IsValid : (b : Bank) (ms : List Message) → IsValid b → IsValid (handle_i2c b ms).0
unfolding handle_i2c
handle_i2c-IsValid b [] v = v
handle_i2c-IsValid b (m ∷ ms) v = elim (Bool-cases (is_read m.flags)) [
  | inl e ↦ rw e (handle_i2c-IsValid (handle_read b m).0 ms (handle_read-IsValid m v))
  | inr e ↦ rw e (handle_i2c-IsValid (handle_write b m) ms (handle_write-IsValid m v))
]

-- the bytes that a transfer asks for
abbrev pub read_total : List Message → ℕ
read_total [] = 0
read_total (m ∷ ms) = (if is_read m.flags then m.len else 0) + read_total ms

length-handle_read : (b : Bank) (m : Message) → length (handle_read b m).1 ≡ m.len
unfolding handle_read
length-handle_read b m = length-read_window b.registers b.size b.pointer m.len

pub length-handle_i2c : (b : Bank) (ms : List Message) → length (handle_i2c b ms).1 ≡ read_total ms
unfolding handle_i2c
length-handle_i2c b [] = refl
length-handle_i2c b (m ∷ ms) = elim (Bool-cases (is_read m.flags)) [
  | inl e ↦ rw e (
      omega (
        arith,
        length-append (handle_read b m).1 (handle_i2c (handle_read b m).0 ms).1,
        length-handle_i2c (handle_read b m).0 ms,
        length-handle_read b m,
      ))
  | inr e ↦ rw e (omega (arith, length-handle_i2c (handle_write b m) ms))
]
