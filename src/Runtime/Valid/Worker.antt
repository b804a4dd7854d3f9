-- ===== src/Runtime/Valid/Worker.antt =====
-- src/sensorium/runtime/transport.py and bridge.py: the counters of the daemon over every request.
use sensorium.Base.{ℕ, Bool-cases, inl, inr, ◌==◌, ◌||◌, Bytes}
use sensorium.Runtime.{Runtime}
use sensorium.Runtime.Dispatch.{Meanwhile}
use sensorium.Runtime.Routes.{
  req_i2c_xfer, req_spi_xfer, req_uart_tx, req_uart_ctrl, req_uart_cfg, handle_bridge_request,
}
use sensorium.Runtime.Valid.{IsValid}
use sensorium.Runtime.Valid.Handlers.{handle_i2c_request-Keeps, handle_spi_request-Keeps}
use sensorium.Runtime.Valid.Uart.{handle_uart_request-Keeps, handle_uart_config_request-Keeps}

-- Every request, of whatever type and payload, keeps the counters: in the totals and in each device's
-- bucket each request is a success or an error and each time-out an error, the trace stays within its
-- limit, and the trace queue within its own.
pub handle_bridge_request-IsValid :
    (m : Meanwhile) (msg_type message_id : ℕ) (payload : Bytes) (rt : Runtime)
    → IsValid rt
    → IsValid (handle_bridge_request m msg_type message_id payload rt).1
unfolding handle_bridge_request
handle_bridge_request-IsValid m t id payload rt v =
    let i2c_kept = handle_i2c_request-Keeps m id payload rt v in
    let spi_kept = handle_spi_request-Keeps m id payload rt v in
    let uart_kept = handle_uart_request-Keeps m (t == req_uart_ctrl) id payload rt v in
    let config_kept = handle_uart_config_request-Keeps m id payload rt v in
    elim (Bool-cases (t == req_i2c_xfer)) [
      | inl a ↦ rw (a, handle_bridge_request) i2c_kept
      | inr a ↦ elim (Bool-cases (t == req_spi_xfer)) [
        | inl b ↦ rw (a, b, handle_bridge_request) spi_kept
        | inr b ↦ elim (Bool-cases (t == req_uart_tx || t == req_uart_ctrl)) [
          | inl c ↦ rw (a, b, c, handle_bridge_request) uart_kept
          | inr c ↦ elim (Bool-cases (t == req_uart_cfg)) [
            | inl d ↦ rw (a, b, c, d, handle_bridge_request) config_kept
            | inr d ↦ rw (a, b, c, d, handle_bridge_request) v
          ]
        ]
      ]
    ]
