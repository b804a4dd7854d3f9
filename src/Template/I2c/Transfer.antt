-- ===== src/Template/I2c/Transfer.antt =====
-- src/sensorium/runtime/templates.py: what a transfer of the register bank reads and writes.
use sensorium.Base.{
  ℕ, zero, suc, ◌+◌, ◌%◌, ◌≤◌, ◌<◌, ◌≡◌, ◌≢◌, refl, ap, ap₂, ◌∙◌, Bool, false, List, [], ◌∷◌, ◌++◌,
  arith, if◌then◌else◌, ◌==◌, ◌||◌, ◌&&◌, Bytes, length, get_or, set, length-set, length-append,
  take-append_length, drop-append_length, append-nil, get_or-set_self, get_or-set_ne, from_be,
  lookup, mod-add-ne,
}
use sensorium.Template.I2c.{
  Bank, Message, read_window, clear_window, handle_read, run_effects, elem, store_payload,
  write_payload, handle_write, handle_i2c,
}
use sensorium.Template.I2c.Bounds.{IsValid}

module _ (size : ℕ) where
  get_or-store_payload_ne :
      (at i : ℕ) (bs regs : Bytes)
      → ((k : ℕ) → k < length bs → (at + k) % size ≢ i)
      → get_or (store_payload [] size at bs regs) i 0 ≡ get_or regs i 0
  unfolding store_payload run_effects lookup
  get_or-store_payload_ne at i [] regs h = refl
  get_or-store_payload_ne at i (b ∷ bs) regs h =
      get_or-store_payload_ne (at + 1) i bs (set regs (at % size) b)
        (λ k p e. h (suc k) (omega arith) (ap (λ n. n % size) (omega arith) ∙ e))
      ∙ get_or-set_ne regs (at % size) i b 0
          (λ e. h 0 (omega arith) (ap (λ n. n % size) (omega arith) ∙ e))

  -- what was stored is what a window over it reads
  read_window-store_payload :
      (at : ℕ) (bs regs : Bytes)
      → length regs ≡ size
      → length bs ≤ size
      → read_window (store_payload [] size at bs regs) size at (length bs) ≡ bs
  unfolding store_payload run_effects read_window lookup
  read_window-store_payload at [] regs hs hb = refl
  read_window-store_payload at (b ∷ bs) regs hs hb =
      ap₂ ◌∷◌
        (get_or-store_payload_ne (at + 1) (at % size) bs (set regs (at % size) b) (λ k p e.
            mod-add-ne at (k + 1) size (omega arith) (omega arith)
              (ap (λ n. n % size) (omega arith) ∙ e))
          ∙ get_or-set_self regs (at % size) b 0 (omega arith))
        (read_window-store_payload (at + 1) bs (set regs (at % size) b)
          (length-set regs (at % size) b ∙ hs) (omega arith))

-- the messages of a write and of a read
abbrev pub write_message : Bytes → Message
write_message bs = record { addr = 0; flags = 0; len = length bs; payload = bs }

abbrev pub read_message : ℕ → Message
read_message n = record { addr = 0; flags = 1; len = n; payload = [] }

write_payload-read :
    (b : Bank) (p : ℕ) (bs : Bytes)
    → IsValid b
    → b.write_effects ≡ []
    → length bs ≤ b.size
    → read_window (write_payload b p bs).registers b.size p (length bs) ≡ bs
unfolding write_payload
write_payload-read b p [] v e h = unfold read_window in refl
write_payload-read b p (x ∷ bs) v e h =
    rw e (read_window-store_payload b.size p (x ∷ bs) b.registers v.sized h)

handle_write-pointer :
    (b : Bank) (ptr bs : Bytes)
    → 0 < b.pointer_width
    → length ptr ≡ b.pointer_width
    → handle_write b (write_message (ptr ++ bs)) ≡ write_payload b (from_be 0 ptr % b.size) bs
unfolding handle_write
handle_write-pointer b ptr bs h e =
    rw (← e)
      (ground (arith, length-append ptr bs, take-append_length ptr bs, drop-append_length ptr bs))

bare_pointer :
    (b : Bank) (ptr : Bytes)
    → 0 < b.pointer_width
    → length ptr ≡ b.pointer_width
    → handle_write b (write_message ptr) ≡ record b { pointer = from_be 0 ptr % b.size }
unfolding write_payload
bare_pointer b ptr h e = rw append-nil at (handle_write-pointer b ptr [] h e)

size-write_payload : (b : Bank) (p : ℕ) (bs : Bytes) → (write_payload b p bs).size ≡ b.size
unfolding write_payload
size-write_payload b p [] = refl
size-write_payload b p (x ∷ bs) = refl

width-write_payload :
    (b : Bank) (p : ℕ) (bs : Bytes) → (write_payload b p bs).pointer_width ≡ b.pointer_width
unfolding write_payload
width-write_payload b p [] = refl
width-write_payload b p (x ∷ bs) = refl

-- After a write of a pointer and of at most `size` bytes, a combined transfer that sets the same
-- pointer and reads as many bytes gets those bytes back, on a bank with no write effects.
pub write_then_read :
    (b : Bank) (ptr bs : Bytes)
    → IsValid b
    → b.write_effects ≡ []
    → 0 < b.pointer_width
    → length ptr ≡ b.pointer_width
    → length bs ≤ b.size
    → (handle_i2c b
        (write_message (ptr ++ bs) ∷ write_message ptr ∷ read_message (length bs) ∷ [])).1
      ≡ bs
unfolding handle_i2c
write_then_read b ptr bs v e hw hp hb =
    let p : ℕ = from_be 0 ptr % b.size in
    let w : Bank = write_payload b p bs in
    let hw' : 0 < w.pointer_width = rw (width-write_payload b p bs) hw in
    let hp' : length ptr ≡ w.pointer_width = rw (width-write_payload b p bs) hp in
    rw (handle_write-pointer b ptr bs hw hp, bare_pointer w ptr hw' hp', append-nil)
      (rw (size-write_payload b p bs) (write_payload-read b p bs v e hb))

-- whether `register` is one of the `n` registers from `start` on, going round at `size`
pub covers : ℕ → ℕ → ℕ → ℕ → Bool
covers size start zero register = false
covers size start (suc n) register = start % size == register || covers size (start + 1) n register

get_or-set_zero :
    (xs : Bytes) (i j : ℕ) → get_or (set xs i 0) j 0 ≡ (if i == j then 0 else get_or xs j 0)
get_or-set_zero [] i j = ground arith
get_or-set_zero (x ∷ xs) zero zero = refl
get_or-set_zero (x ∷ xs) zero (suc j) = ground arith
get_or-set_zero (x ∷ xs) (suc i) zero = ground arith
get_or-set_zero (x ∷ xs) (suc i) (suc j) = ground (arith, get_or-set_zero xs i j)

get_or-clear_window :
    (clear : List ℕ) (size start n r : ℕ) (regs : Bytes)
    → get_or (clear_window clear size start n regs) r 0
      ≡ (if covers size start n r && elem r clear then 0 else get_or regs r 0)
unfolding clear_window covers
get_or-clear_window clear size start zero r regs = refl
get_or-clear_window clear size start (suc n) r regs = ground (
  arith,
  get_or-clear_window clear size (start + 1) n r regs,
  get_or-clear_window clear size (start + 1) n r (set regs (start % size) 0),
  get_or-set_zero regs (start % size) r,
)

-- A read changes the registers in this way only: those of its window that clear on a read become 0.
pub read_clears :
    (b : Bank) (m : Message) (r : ℕ)
    → get_or (handle_read b m).0.registers r 0 ≡ (
        if covers b.size b.pointer m.len r && elem r b.clear_on_read
        then 0
        else get_or b.registers r 0)
unfolding handle_read
read_clears b m r = get_or-clear_window b.clear_on_read b.size b.pointer m.len r b.registers
