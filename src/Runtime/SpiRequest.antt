-- ===== src/Runtime/SpiRequest.antt =====
-- src/sensorium/runtime/spi.py: `_handle_spi_request`.
use sensorium.Base.{
  ℕ, zero, suc, ◌+◌, ◌*◌, Bool, true, false, not, ◌&&◌, ◌||◌, List, [], ◌∷◌, map, Option, none,
  some, if◌then◌else◌, ltb, leb, Bytes, length, take, drop, u8_at, u16_at, u32_at, ◌==◌, ℤ, pos,
  neg,
}
use sensorium.Base.Result.{ok, raise, attribute_error}
use sensorium.Template.Spi.{Transfer, handle_spi_message}
use sensorium.Device.{
  Device, template_backend, controller_backend, bank, spi_state, uart_state, spi, eproto,
  eopnotsupp, enoent, Settings, i2c_settings, spi_settings, uart_settings,
}
use sensorium.Runtime.{SpiTransfer, spi_xfer, Action}
use sensorium.Runtime.Requests.{device_by_handle, reject_request}
use sensorium.Runtime.Dispatch.{Meanwhile}
use sensorium.Runtime.Serve.{
  Decoded, refused, decoded, unless_fault, serve_template, serve_controller, event_of,
}

-- SPI_REQ_XFER_STRUCT
pub record XferDesc : Type 0 where
  pub len : ℕ
  pub speed_hz : ℕ
  pub delay_usecs : ℕ
  pub bits_per_word : ℕ
  pub cs_change : ℕ
  pub tx_nbits : ℕ
  pub rx_nbits : ℕ
  pub word_delay_usecs : ℕ
  pub has_tx : ℕ
  pub has_rx : ℕ

unfoldable pub read_desc : Bytes → XferDesc
read_desc bs = record {
  len = u32_at 0 bs;
  speed_hz = u32_at 4 bs;
  delay_usecs = u16_at 8 bs;
  bits_per_word = u8_at 10 bs;
  cs_change = u8_at 11 bs;
  tx_nbits = u8_at 12 bs;
  rx_nbits = u8_at 13 bs;
  word_delay_usecs = u8_at 14 bs;
  has_tx = u8_at 15 bs;
  has_rx = u8_at 16 bs;
}

unfoldable pub read_descs : ℕ → Bytes → List XferDesc
unfolding read_desc
read_descs zero bs = []
read_descs (suc n) bs = read_desc bs ∷ read_descs n (drop 19 bs)

-- `_normalize_spi_lane_width`
abbrev pub lane_width : ℕ → ℕ
lane_width value = if value == 0 then 1 else value

-- SPI_LANE_WIDTHS
abbrev pub is_lane_width : ℕ → Bool
is_lane_width w = w == 1 || w == 2 || w == 4 || w == 8

-- `device["settings"].get("bits_per_word", 8)`
abbrev pub default_bits : Settings → ℕ
default_bits i2c_settings = 8
default_bits (spi_settings s) = s.bits_per_word
default_bits (uart_settings s) = 8

-- the checks of one transfer, in their order, and its bytes
unfoldable pub read_transfer : ℕ → XferDesc → Bytes → Decoded SpiTransfer
read_transfer bits d tx =
    let bits_per_word = if d.bits_per_word == 0 then bits else d.bits_per_word in
    let tx_nbits = lane_width d.tx_nbits in
    let rx_nbits = lane_width d.rx_nbits in
    if not (d.len == 0) && not (leb 1 bits_per_word && leb bits_per_word 32)
    then refused (neg eopnotsupp)
    else if not (is_lane_width tx_nbits && is_lane_width rx_nbits)
    then refused (neg eopnotsupp)
    else if not (leb d.cs_change 1)
    then refused (neg eopnotsupp)
    else if not (leb d.has_tx 1 && leb d.has_rx 1)
    then refused (neg eproto)
    else decoded (record {
      len = d.len;
      speed_hz = d.speed_hz;
      delay_usecs = d.delay_usecs;
      bits_per_word = bits_per_word;
      cs_change = d.cs_change;
      tx_nbits = tx_nbits;
      rx_nbits = rx_nbits;
      word_delay_usecs = d.word_delay_usecs;
      has_tx = d.has_tx == 1;
      has_rx = d.has_rx == 1;
      tx = take d.len tx;
    })

abbrev add_transfer : Decoded SpiTransfer → Decoded (List SpiTransfer) → Decoded (List SpiTransfer)
add_transfer (refused status) ts = refused status
add_transfer (decoded t) (refused status) = refused status
add_transfer (decoded t) (decoded ts) = decoded (t ∷ ts)

-- the loop over the transfers, each with its stretch of `tx`
unfoldable pub read_transfers : ℕ → List XferDesc → Bytes → Decoded (List SpiTransfer)
unfolding read_transfer
read_transfers bits [] tx = decoded []
read_transfers bits (d ∷ ds) tx =
    let rest = read_transfers bits ds (drop d.len tx) in add_transfer (read_transfer bits d tx) rest

-- what the payload says of itself: handle, mode, chip select, descriptors and data
pub record SpiHeader : Type 0 where
  pub device_handle : ℕ
  pub mode : ℕ
  pub chip_select : ℕ
  pub descs : List XferDesc
  pub tx : Bytes

-- The checks before the device is looked up. A wrong number of transfers is refused without a trace, the
-- others with one: `true`.
unfoldable pub decode_spi : Bytes → Decoded SpiHeader × Bool
unfolding read_descs
decode_spi payload =
    let num_xfers = u32_at 12 payload in
    let tx = drop (24 + 19 * num_xfers) payload in
    if ltb (length payload) 24
    then (refused (neg eproto), true)
    else if num_xfers == 0 || ltb 256 num_xfers
    then (refused (neg eopnotsupp), false)
    else if ltb (length payload) (24 + 19 * num_xfers)
    then (refused (neg eproto), true)
    else if not (length tx == u32_at 16 payload)
    then (refused (neg eproto), true)
    else (
      decoded (record {
        device_handle = u32_at 0 payload;
        mode = u32_at 8 payload;
        chip_select = u32_at 20 payload;
        descs = read_descs num_xfers (drop 24 payload);
        tx = tx;
      }),
      true,
    )

-- `device.get("chip_select", chip_select)`
abbrev pub selects : Option ℕ → ℕ → Bool
selects none chip_select = true
selects (some expected) chip_select = chip_select == expected

abbrev pub to_template : SpiTransfer → Transfer
to_template t = record { tx = t.tx; len = t.len }

unfoldable pub serve_script : Device → ℕ → List SpiTransfer → Action (ℤ × Bytes)
unfolding handle_spi_message serve_template
serve_script d bytes_in transfers rt = elim d.state [
  | none ↦ (raise attribute_error, rt)
  | some t ↦ elim t [
    | spi_state s ↦
        let (s', reply) = handle_spi_message s (map to_template transfers) in
        serve_template spi d bytes_in (spi_state s') (pos 0, reply) rt
    | bank b ↦ (raise attribute_error, rt)
    | uart_state s ↦ (raise attribute_error, rt)
  ]
]

unfoldable pub transfer_spi :
    Meanwhile → Device → ℕ → ℕ → SpiHeader → List SpiTransfer → Action (ℤ × Bytes)
unfolding serve_script serve_controller
transfer_spi m d message_id bytes_in h transfers rt = elim d.backend [
  | template_backend t ↦ serve_script d bytes_in transfers rt
  | controller_backend w ↦
      serve_controller spi m d bytes_in
        (event_of d message_id (spi_xfer h.mode h.chip_select transfers)) rt
]

-- the request once its device is found
unfoldable pub handle_spi_device : Meanwhile → Device → ℕ → ℕ → SpiHeader → Action (ℤ × Bytes)
unfolding reject_request read_transfers unless_fault transfer_spi
handle_spi_device m d message_id bytes_in h rt =
    if selects d.chip_select h.chip_select
    then elim (read_transfers (default_bits d.settings) h.descs h.tx) [
      | refused status ↦ reject_request (some d) spi bytes_in status rt
      | decoded transfers ↦
          unless_fault spi d bytes_in (transfer_spi m d message_id bytes_in h transfers) rt
    ]
    else reject_request (some d) spi bytes_in (neg eproto) rt

abbrev pub refuse_spi : ℕ → ℤ → Bool → Action (ℤ × Bytes)
refuse_spi bytes_in status traced rt =
    if traced then reject_request none spi bytes_in status rt else (ok (status, []), rt)

unfoldable pub handle_spi_request : Meanwhile → ℕ → Bytes → Action (ℤ × Bytes)
unfolding decode_spi reject_request handle_spi_device
handle_spi_request m message_id payload rt =
    let (header, traced) = decode_spi payload in
    elim header [
      | refused status ↦ refuse_spi (length payload) status traced rt
      | decoded h ↦ elim (device_by_handle h.device_handle rt) [
        | none ↦ (ok (neg enoent, []), rt)
        | some d ↦ handle_spi_device m d message_id (length payload) h rt
      ]
    ]
