-- ===== src/Template/Spi.antt =====
-- src/sensorium/runtime/templates.py, class SPIScriptTemplate: scripted answers, or the status machine of a flash chip.
-- Byte strings stand for the hex texts that `bytes.fromhex` reads.
pub mod Reply
pub mod Flash
mod Tests
use sensorium.Base.{
  ℕ, zero, suc, ◌+◌, ◌-◌, ◌*◌, ◌/◌, ◌%◌, max, Bool, true, false, List, [], ◌∷◌, ◌++◌, Option, none,
  some, if◌then◌else◌, ltb, ◌==◌, Bytes, bytes_eq, starts_with, length, get_or, take, replicate,
  lookup,
}

pub record Backend : Type 0 where
  pub responses : List (Bytes × Bytes)
  pub prefix_responses : List (Bytes × Bytes)
  pub default_response : Bytes
  pub echo : Bool
  pub flash_jedec_id : Bytes
  pub flash_status_register : ℕ
  pub flash_write_busy_cycles : ℕ

pub record Script : Type 0 where
  pub responses : List (Bytes × Bytes)
  pub prefix_responses : List (Bytes × Bytes)
  pub default_response : Bytes
  pub echo : Bool
  pub flash_jedec_id : Bytes
  pub flash_status_register : ℕ
  pub flash_write_busy_cycles : ℕ
  pub flash_wel : Bool
  pub flash_busy_reads_remaining : ℕ

pub record Transfer : Type 0 where
  pub tx : Bytes
  pub len : ℕ

pub init : Backend → Script
init b = record {
  responses = b.responses;
  prefix_responses = b.prefix_responses;
  default_response = b.default_response;
  echo = b.echo;
  flash_jedec_id = b.flash_jedec_id;
  flash_status_register = b.flash_status_register % 256;
  flash_write_busy_cycles = b.flash_write_busy_cycles;
  flash_wel = false;
  flash_busy_reads_remaining = 0;
}

-- `x & 0xFC`
abbrev pub and_fc : ℕ → ℕ
and_fc x = x % 256 / 4 * 4

abbrev fallback : Script → Bytes → Bytes
fallback s tx = if s.echo then tx else s.default_response

-- opcode 0x05. Both low bits of `x & 0xFC` are 0, so `|=` adds.
pub read_status : Script → ℕ → Script × Bytes
read_status s len =
    let status =
      and_fc s.flash_status_register
      + (if s.flash_wel then 2 else 0)
      + (if ltb 0 s.flash_busy_reads_remaining then 1 else 0) in
    (
      record s { flash_busy_reads_remaining = s.flash_busy_reads_remaining - 1 },
      replicate (max 1 len) status,
    )

-- opcode 0x01 with a value and the write-enable latch set
pub write_status : Script → ℕ → Script
write_status s value = record s {
  flash_status_register = and_fc value;
  flash_wel = false;
  flash_busy_reads_remaining = s.flash_write_busy_cycles;
}

-- the arguments of opcode 0x01: `len(tx) >= 2 and self._flash_wel`
pub write_status_or_fallback : Script → Bytes → Bytes → Script × Bytes
unfolding write_status
write_status_or_fallback s tx [] = (s, fallback s tx)
write_status_or_fallback s tx (value ∷ rest) =
    if s.flash_wel then (write_status s value, []) else (s, fallback s tx)

-- the commands of the flash branch, `opcode` and `rest` the parts of `tx`
pub flash_command : Script → Bytes → ℕ → Bytes → ℕ → Script × Bytes
unfolding read_status write_status_or_fallback
flash_command s tx opcode rest len =
    if opcode == 0x06
    then (record s { flash_wel = true }, [])
    else if opcode == 0x04
    then (record s { flash_wel = false }, [])
    else if opcode == 0x05
    then read_status s len
    else if opcode == 0x9f
    then (s, s.flash_jedec_id)
    else if opcode == 0x01
    then write_status_or_fallback s tx rest
    else (s, fallback s tx)

pub find_prefix : List (Bytes × Bytes) → Bytes → Option Bytes
find_prefix [] tx = none
find_prefix ((prefix, candidate) ∷ rest) tx =
    if starts_with prefix tx then some candidate else find_prefix rest tx

-- the branches with no flash: an exact response, else the first prefix that fits, else the fallback
pub scripted : Script → Bytes → Bytes
unfolding find_prefix
scripted s tx = elim (lookup bytes_eq tx s.responses) [
  | some response ↦ response
  | none ↦ elim (find_prefix s.prefix_responses tx) [
    | some candidate ↦ candidate
    | none ↦ fallback s tx
  ]
]

pub respond : Script → Bytes → ℕ → Script × Bytes
unfolding scripted
respond s [] len = (s, scripted s [])
respond s (opcode ∷ rest) len =
    if length s.flash_jedec_id == 0
    then (s, scripted s (opcode ∷ rest))
    else flash_command s (opcode ∷ rest) opcode rest len

-- the padding with zeroes and the cut at the end of `handle_spi`
pub fit : ℕ → Bytes → Bytes
fit len response = take len (response ++ replicate (len - length response) 0)

pub handle_spi : Script → Bytes → ℕ → Script × Bytes
unfolding fit
handle_spi s tx len = let (s', response) = respond s tx len in (s', fit len response)

unfoldable pub handle_spi_message : Script → List Transfer → Script × Bytes
handle_spi_message s [] = (s, [])
handle_spi_message s (t ∷ ts) =
    let (s', reply) = handle_spi s t.tx t.len in
    let rest = handle_spi_message s' ts in (rest.0, reply ++ rest.1)
