-- ===== src/Template/Spi/Flash.antt =====
-- src/sensorium/runtime/templates.py: the flash chip's write cycle.
use sensorium.Base.{
  ℕ, zero, suc, ◌+◌, ◌-◌, ◌≡◌, ◌≢◌, refl, ◌∙◌, ap, ◌⊎◌, inl, inr, Bool-cases, ◌==◌, true, false, [],
  ◌∷◌, arith, if◌then◌else◌, ltb, Bytes, length, get_or, replicate, max,
}
use sensorium.Template.Spi.{Script, and_fc, flash_command, respond, fit, handle_spi}

-- the message is a write of `v` to the status register, which the latch allows; it uses the latch up
abbrev pub IsStatusWrite : Script → Bytes → Script → Type 0
IsStatusWrite s tx s' =
    (s.flash_wel ≡ true)
    × (v : ℕ) × (rest : Bytes) × (tx ≡ 0x01 ∷ v ∷ rest)
    × (s'.flash_status_register ≡ and_fc v)
    × (s'.flash_wel ≡ false)

-- Whatever the message, the status register stays as it is, or the message is a write-status command with a value
-- and the write-enable latch was set; then the register is the value's upper six bits, and the latch is used up.
pub write_needs_enable :
    (s : Script) (tx : Bytes) (len : ℕ)
    → ((handle_spi s tx len).0.flash_status_register ≡ s.flash_status_register)
      ⊎ IsStatusWrite s tx (handle_spi s tx len).0
unfolding handle_spi respond flash_command
write_needs_enable s [] len = inl refl
write_needs_enable s (x ∷ []) len = inl (ground arith)
write_needs_enable s (x ∷ v ∷ rest) len = elim (Bool-cases (x == 0x01)) [
  | inr other ↦ inl (ground arith)
  | inl write ↦ elim (Bool-cases s.flash_wel) [
    | inr locked ↦ inl (ground arith)
    | inl enabled ↦ elim (Bool-cases (length s.flash_jedec_id == 0)) [
      | inl no_flash ↦ inl (ground arith)
      | inr flash ↦
          let opcode : x ≡ 0x01 = ground arith in
          inr (enabled, v, rest, ap (λ n. n ∷ v ∷ rest) opcode, ground arith, ground arith)
    ]
  ]
]

-- `n` status reads of `len` bytes
pub polls : ℕ → ℕ → Script → Script
polls len zero s = s
polls len (suc n) s = polls len n (handle_spi s (0x05 ∷ []) len).0

abbrev pub status_byte : Script → ℕ → ℕ
status_byte s len = get_or (handle_spi s (0x05 ∷ []) len).1 0 0

fit-status : (len x : ℕ) → get_or (fit (suc len) (replicate (max 1 (suc len)) x)) 0 0 ≡ x
unfolding fit
fit-status len x = let e : max 1 (suc len) ≡ suc len = omega arith in rw e

-- The status byte: the stored bits, the write-enable latch in bit 1 and the busy flag in bit 0.
status_byte_lem :
    (s : Script) (len : ℕ)
    → length s.flash_jedec_id ≢ 0
    → status_byte s (suc len)
      ≡ and_fc s.flash_status_register
        + (if s.flash_wel then 2 else 0)
        + (if ltb 0 s.flash_busy_reads_remaining then 1 else 0)
unfolding handle_spi respond flash_command
status_byte_lem s len h = ground (
  arith,
  fit-status len (
      and_fc s.flash_status_register
      + (if s.flash_wel then 2 else 0)
      + (if ltb 0 s.flash_busy_reads_remaining then 1 else 0)),
)

-- one status read lets the busy counter fall and leaves the rest
poll_lem :
    (s : Script) (len : ℕ)
    → length s.flash_jedec_id ≢ 0
    → (handle_spi s (0x05 ∷ []) len).0
      ≡ record s { flash_busy_reads_remaining = s.flash_busy_reads_remaining - 1 }
unfolding handle_spi respond flash_command
poll_lem s len h = ground arith

polls_lem :
    (len n : ℕ) (s : Script)
    → length s.flash_jedec_id ≢ 0
    → polls len n s ≡ record s { flash_busy_reads_remaining = s.flash_busy_reads_remaining - n }
unfolding polls
polls_lem len zero s h = ground arith
polls_lem len (suc n) s h = rw (poll_lem s len h) (
    polls_lem len n (record s { flash_busy_reads_remaining = s.flash_busy_reads_remaining - 1 }) h
    ∙ ground arith)

-- the state after write-enable and a write of `v` to the status register
abbrev pub written : Script → ℕ → Script
written s v = (handle_spi (handle_spi s (0x06 ∷ []) 1).0 (0x01 ∷ v ∷ []) 2).0

written_lem :
    (s : Script) (v : ℕ)
    → length s.flash_jedec_id ≢ 0
    → written s v ≡ record s {
      flash_status_register = and_fc v;
      flash_wel = false;
      flash_busy_reads_remaining = s.flash_write_busy_cycles;
    }
unfolding handle_spi respond flash_command
written_lem s v h = ground arith

-- The write cycle: after write-enable and a write of `v`, status read number `n` (from 0) answers the
-- upper six bits of `v`, with the busy flag exactly while `n` is below the configured busy cycles.
pub write_cycle :
    (s : Script) (v n len : ℕ)
    → length s.flash_jedec_id ≢ 0
    → status_byte (polls (suc len) n (written s v)) (suc len)
      ≡ and_fc v + (if ltb n s.flash_write_busy_cycles then 1 else 0)
write_cycle s v n len h =
    rw
      (
        written_lem s v h,
        polls_lem (suc len) n
            (record s {
              flash_status_register = and_fc v;
              flash_wel = false;
              flash_busy_reads_remaining = s.flash_write_busy_cycles;
            })
            h,
      )
      (status_byte_lem
          (record s {
            flash_status_register = and_fc v;
            flash_wel = false;
            flash_busy_reads_remaining = s.flash_write_busy_cycles - n;
          })
          len h
        ∙ ground arith)
