-- ===== src/Template/Spi/Tests.antt =====
-- The SPI template at concrete inputs.
use Prim.Native.Nat.{bit_and}
use sensorium.Base.{
  ℕ, zero, suc, ◌+◌, ◌≡◌, ◌⊎◌, refl, Bool, true, false, ◌&&◌, List, [], ◌∷◌, arith, ◌==◌, length,
  lookup,
}
use sensorium.Template.Spi.{
  Backend, Script, Transfer, and_fc, init, respond, flash_command, handle_spi, handle_spi_message,
}
use sensorium.Template.Spi.Reply.{length-handle_spi_message}
use sensorium.Template.Spi.Flash.{
  IsStatusWrite, write_needs_enable, polls, written, status_byte, write_cycle,
}

all_below : ℕ → (ℕ → Bool) → Bool
all_below zero p = true
all_below (suc n) p = p n && all_below n p

-- `and_fc` is `& 0xFC` on bytes
and_fc_table : all_below 256 (λ x. bit_and x 0xfc == and_fc x) ≡ true
unfolding all_below
and_fc_table = refl

abbrev flash : Script
flash = record {
  responses = [];
  prefix_responses = [];
  default_response = 0xaa ∷ [];
  echo = false;
  flash_jedec_id = 0xef ∷ 0x40 ∷ 0x18 ∷ [];
  flash_status_register = 0;
  flash_write_busy_cycles = 2;
  flash_wel = false;
  flash_busy_reads_remaining = 0;
}

abbrev transfers : List Transfer
transfers =
    record { tx = 0x9f ∷ []; len = 4 }
    ∷ record { tx = 0x06 ∷ []; len = 1 }
    ∷ record { tx = 0x05 ∷ 0 ∷ []; len = 2 }
    ∷ []

flash_runs : (handle_spi_message flash transfers).1 ≡ 0xef ∷ 0x40 ∷ 0x18 ∷ 0 ∷ 0 ∷ 2 ∷ 2 ∷ []
unfolding handle_spi_message handle_spi respond flash_command
flash_runs = refl

abbrev script : Backend
script = record {
  responses = (1 ∷ [], 2 ∷ []) ∷ [];
  prefix_responses = (3 ∷ [], 4 ∷ []) ∷ [];
  default_response = [];
  echo = true;
  flash_jedec_id = [];
  flash_status_register = 0;
  flash_write_busy_cycles = 0;
}

script_runs :
    (handle_spi_message (init script) (
      record { tx = 1 ∷ []; len = 1 }
      ∷ record { tx = 3 ∷ 9 ∷ []; len = 2 }
      ∷ record { tx = 7 ∷ 8 ∷ []; len = 2 }
      ∷ [])).1
    ≡ 2 ∷ 4 ∷ 0 ∷ 7 ∷ 8 ∷ []
unfolding init handle_spi_message handle_spi respond lookup
script_runs = refl

length-handle_spi_message_example : length (handle_spi_message flash transfers).1 ≡ 7
length-handle_spi_message_example = length-handle_spi_message flash transfers

abbrev enabled : Script
enabled = record flash { flash_wel = true }

write_needs_enable_example :
    ((handle_spi enabled (0x01 ∷ 0xfc ∷ []) 2).0.flash_status_register ≡ 0)
    ⊎ IsStatusWrite enabled (0x01 ∷ 0xfc ∷ []) (handle_spi enabled (0x01 ∷ 0xfc ∷ []) 2).0
write_needs_enable_example = write_needs_enable enabled (0x01 ∷ 0xfc ∷ []) 2

write_cycle_example : status_byte (polls 1 1 (written flash 0x1f)) 1 ≡ 0x1c + 1
write_cycle_example = write_cycle flash 0x1f 1 0 (omega arith)
