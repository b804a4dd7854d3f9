-- ===== src/Template/Uart.antt =====
-- src/sensorium/runtime/templates.py, class UARTScriptTemplate: echo, scripted binary and line answers, modem lines.
-- A `str` is the list of its code points; a byte string stands for the hex text that was read.
pub mod Lines
mod Tests
use Prim.Native.Nat.{bit_or}
use sensorium.Base.{
  ℕ, zero, suc, ◌+◌, ◌-◌, ◌*◌, ◌/◌, ◌%◌, Bool, true, false, ◌&&◌, List, [], ◌∷◌, ◌++◌, Option, none,
  some, if◌then◌else◌, ltb, leb, ◌==◌, Bytes, bytes_eq, length, lookup, Text, codes,
}

pub record Script : Type 0 where
  pub echo : Bool
  pub line_responses : List (Text × Bytes)
  pub binary_responses : List (Bytes × Bytes)
  pub default_response : Bytes
  pub control_defaults : List (Text × Bool)
  pub cts_follows_rts : Bool
  pub carrier_follows_dtr : Bool
  pub line_buffer : Bytes

-- `name.lower()`, as far as the names of the modem lines can come out of it
abbrev pub lower : Text → Text
lower [] = []
lower (c ∷ s) = (if leb b'A' c && leb c b'Z' then c + 32 else c) ∷ lower s

-- UART_MODEM_BITS of bridge_protocol.py
abbrev pub modem_bits : List (Text × ℕ)
modem_bits =
    (codes "rts", 0x004)
    ∷ (codes "cts", 0x020)
    ∷ (codes "dtr", 0x002)
    ∷ (codes "dsr", 0x100)
    ∷ (codes "cd", 0x040)
    ∷ (codes "ri", 0x080)
    ∷ []

abbrev pub modem_bit : Text → Option ℕ
modem_bit name = lookup bytes_eq (lower name) modem_bits

-- the loop of `modem_defaults`, which `_handle_uart_request` writes once more over the updates
unfoldable pub collect_bits : List (Text × Bool) → ℕ × ℕ → ℕ × ℕ
collect_bits [] acc = acc
collect_bits ((name, enabled) ∷ rest) (mask, values) = collect_bits rest (elim (modem_bit name) [
  | none ↦ (mask, values)
  | some bit ↦ (bit_or mask bit, if enabled then bit_or values bit else values)
])

pub modem_defaults : Script → ℕ × ℕ
modem_defaults s = collect_bits s.control_defaults (0, 0)

-- `self._line_buffer.partition(b"\n")`, or `none` where the buffer has no newline
pub partition : Bytes → Option (Bytes × Bytes)
partition [] = none
partition (b ∷ bs) =
    if b == 10
    then some ([], bs)
    else elim (partition bs) [ none ↦ none | some (line, rest) ↦ some (b ∷ line, rest) ]

-- `raw_line.rstrip(b"\r")`
pub rstrip_cr : Bytes → Bytes
rstrip_cr [] = []
rstrip_cr (b ∷ bs) = let rest = rstrip_cr bs in if length rest == 0 && b == 13 then [] else b ∷ rest

-- Where `.decode("utf-8", errors="ignore")` stands: between characters, or with `need` more bytes to
-- come, the next of them from `lo` to `hi`.
pub data Decoder : Type 0 where
  start : Decoder
  more : ℕ → ℕ → ℕ → ℕ → Decoder

-- a byte between characters
pub lead : ℕ → Decoder × Text
lead b =
    if ltb b 0x80
    then (start, b ∷ [])
    else if ltb b 0xc2
    then (start, [])
    else if ltb b 0xe0
    then (more 1 (b - 0xc0) 0x80 0xbf, [])
    else if ltb b 0xf0
    then (
      more 2 (b - 0xe0) (if b == 0xe0 then 0xa0 else 0x80) (if b == 0xed then 0x9f else 0xbf),
      [],
    )
    else if ltb b 0xf5
    then (
      more 3 (b - 0xf0) (if b == 0xf0 then 0x90 else 0x80) (if b == 0xf4 then 0x8f else 0xbf),
      [],
    )
    else (start, [])

-- A byte that cannot go on drops what was begun, and is read again as a first one.
pub decode_step : Decoder → ℕ → Decoder × Text
unfolding lead
decode_step start b = lead b
decode_step (more need acc lo hi) b =
    let acc' = acc * 64 + (b - 0x80) in
    if leb lo b && leb b hi
    then (if need == 1 then (start, acc' ∷ []) else (more (need - 1) acc' 0x80 0xbf, []))
    else lead b

pub decode_from : Decoder → Bytes → Text
unfolding decode_step
decode_from d [] = []
decode_from d (b ∷ bs) = let (d', out) = decode_step d b in out ++ decode_from d' bs

abbrev pub decode_utf8 : Bytes → Text
decode_utf8 = decode_from start

-- the answer to one line, newline taken off
pub line_reply : List (Text × Bytes) → Bytes → Bytes
unfolding rstrip_cr decode_from
line_reply responses raw_line =
    elim (lookup bytes_eq (decode_utf8 (rstrip_cr raw_line)) responses) [
      | none ↦ []
      | some reply ↦ reply
    ]

-- `while b"\n" in self._line_buffer`: the answers, and the buffer that is left. Each round takes a
-- newline out, so as many rounds as there are bytes are enough.
pub drain_lines : List (Text × Bytes) → ℕ → Bytes → Bytes × Bytes
drain_lines responses zero buffer = ([], buffer)
drain_lines responses (suc fuel) buffer = elim (partition buffer) [
  | none ↦ ([], buffer)
  | some (raw_line, rest) ↦
      let (replies, left) = drain_lines responses fuel rest in
      (line_reply responses raw_line ++ replies, left)
]

abbrev pub is_empty {ℓ} : {A : Type ℓ} → List A → Bool
is_empty [] = true
is_empty (_ ∷ _) = false

abbrev or_empty : Option Bytes → Bytes
or_empty none = []
or_empty (some bs) = bs

-- the third step of `handle_uart`
pub answer_lines : Script → Bytes → Script × Bytes
answer_lines s input =
    let buffer = s.line_buffer ++ input in
    let (replies, left) = drain_lines s.line_responses (length buffer) buffer in
    if is_empty s.line_responses
    then (s, [])
    else if is_empty input
    then (s, [])
    else (record s { line_buffer = left }, replies)

unfoldable pub handle_uart : Script → Bytes → Script × Bytes
unfolding answer_lines
handle_uart s input =
    let echoed = if s.echo then input else [] in
    let binary = or_empty (lookup bytes_eq input s.binary_responses) in
    let (s', lines) = answer_lines s input in
    let reply = echoed ++ binary ++ lines in
    (s', if is_empty reply then (if is_empty input then [] else s.default_response) else reply)

-- `handle_uart_control`: the updates of the modem lines, for bits RTS (0x004) and DTR (0x002)
unfoldable pub handle_uart_control : Script → ℕ → ℕ → List (Text × Bool)
handle_uart_control s modem_mask modem_values =
    let rts = modem_values / 4 % 2 == 1 in
    let dtr = modem_values / 2 % 2 == 1 in
    (if s.cts_follows_rts && modem_mask / 4 % 2 == 1 then (codes "cts", rts) ∷ [] else [])
    ++ (if s.carrier_follows_dtr && modem_mask / 2 % 2 == 1
        then (codes "cd", dtr) ∷ (codes "dsr", dtr) ∷ []
        else [])
