-- ===== src/Runtime/Routes.antt =====
-- src/sensorium/runtime/transport.py, `_handle_bridge_request`, and bridge.py: the requests by type, the
-- bounded queue in front of the workers, and the replies.
use sensorium.Base.{
  ℕ, zero, suc, ◌+◌, ◌-◌, max, Bool, true, false, not, ◌&&◌, ◌||◌, List, [], ◌∷◌, ◌++◌,
  if◌then◌else◌, ltb, Bytes, length, to_le, two_complement, negsuc, ◌^◌, ◌==◌, ℤ, pos, neg,
}
use sensorium.Base.Result.{Error, Result, ok, raise, blocking_io_error, os_error, runtime_error}
use sensorium.Device.{einval, eio, ebusy}
use sensorium.Bridge.{Entry}
use sensorium.Bridge.Protocol.{cmd_reply}
use sensorium.Runtime.{Runtime, BridgeStats, desynced, Action}
use sensorium.Runtime.Outside.{write_entry}
use sensorium.Runtime.Dispatch.{Meanwhile}
use sensorium.Runtime.I2cRequest.{handle_i2c_request}
use sensorium.Runtime.SpiRequest.{handle_spi_request}
use sensorium.Runtime.UartRequest.{handle_uart_request, handle_uart_config_request}

abbrev pub req_i2c_xfer : ℕ
req_i2c_xfer = 101

abbrev pub req_spi_xfer : ℕ
req_spi_xfer = 102

abbrev pub req_uart_tx : ℕ
req_uart_tx = 103

abbrev pub req_uart_ctrl : ℕ
req_uart_ctrl = 104

abbrev pub req_uart_cfg : ℕ
req_uart_cfg = 105

-- `_handle_bridge_request`
unfoldable pub handle_bridge_request : Meanwhile → ℕ → ℕ → Bytes → Action (ℤ × Bytes)
unfolding handle_i2c_request handle_spi_request handle_uart_request handle_uart_config_request
handle_bridge_request m msg_type message_id payload rt =
    if msg_type == req_i2c_xfer
    then handle_i2c_request m message_id payload rt
    else if msg_type == req_spi_xfer
    then handle_spi_request m message_id payload rt
    else if msg_type == req_uart_tx || msg_type == req_uart_ctrl
    then handle_uart_request m (msg_type == req_uart_ctrl) message_id payload rt
    else if msg_type == req_uart_cfg
    then handle_uart_config_request m message_id payload rt
    else (ok (neg einval, []), rt)

-- a frame that `read_frame` gave
pub record Task : Type 0 where
  pub msg_type : ℕ
  pub message_id : ℕ
  pub generation : ℕ
  pub payload : Bytes

abbrev with_stats : BridgeStats → Runtime → Runtime
with_stats s rt = record rt { bridge_stats = s }

-- `_bridge_request_started`
unfoldable pub request_started : Runtime → Runtime
request_started rt =
    let s = rt.bridge_stats in
    with_stats
      (record s { inflight = s.inflight + 1; inflight_max = max s.inflight_max (s.inflight + 1) })
      rt

-- `_bridge_request_finished`, without the latencies; `inflight` stops at 0
unfoldable pub request_finished : Bool → Runtime → Runtime
request_finished bridge_error rt =
    let s = rt.bridge_stats in
    with_stats
      (record s {
        inflight = s.inflight - 1;
        completed = s.completed + 1;
        bridge_errors = if bridge_error then s.bridge_errors + 1 else s.bridge_errors;
      })
      rt

-- `_note_queue_depth`
unfoldable pub note_queue_depth : ℕ → Runtime → Runtime
note_queue_depth depth rt =
    let s = rt.bridge_stats in
    with_stats (record s { queue_depth = depth; queue_depth_max = max s.queue_depth_max depth }) rt

-- `_bridge_busy_rejection`
unfoldable pub busy_rejection : Runtime → Runtime
busy_rejection rt =
    let s = rt.bridge_stats in
    with_stats
      (record s {
        busy_rejections_generation = s.busy_rejections_generation + 1;
        busy_rejections_total = s.busy_rejections_total + 1;
      })
      rt

-- REPLY_PREFIX_STRUCT and the data
abbrev pub reply_payload : ℤ → Bytes → Bytes
reply_payload status bytes = to_le 4 (two_complement status) ++ (to_le 4 (length bytes) ++ bytes)

-- a status that the signed field holds, with a length that the other one holds
abbrev pub reply_fits : ℤ → Bytes → Bool
reply_fits (pos n) bytes = ltb n (2 ^ 31) && ltb (length bytes) (2 ^ 32)
reply_fits (negsuc n) bytes = ltb n (2 ^ 31) && ltb (length bytes) (2 ^ 32)

abbrev pub reply_entry : Task → ℤ → Bytes → Entry
reply_entry t status bytes = record {
  msg_type = cmd_reply;
  message_id = t.message_id;
  generation = t.generation;
  payload = reply_payload status bytes;
}

-- `_bridge_reply_overloaded`; where the frame is not taken, the rejection is not counted
unfoldable pub reply_overloaded : Task → Runtime → Runtime
unfolding write_entry busy_rejection
reply_overloaded t rt =
    let (outcome, rt') = write_entry (reply_entry t (neg ebusy) []) rt in
    elim outcome [ ok _ ↦ busy_rejection rt' | raise e ↦ rt' ]

-- A frame in `_bridge_loop`, with the tasks that wait and `maxsize`. An exception in the answer to an
-- overload is dropped.
unfoldable pub receive_task : ℕ → Task → List Task → Runtime → List Task × Runtime
unfolding note_queue_depth reply_overloaded
receive_task max_pending t waiting rt =
    if ltb (length waiting) max_pending
    then (waiting ++ t ∷ [], note_queue_depth (length waiting + 1) rt)
    else (waiting, reply_overloaded t rt)

abbrev pub is_busy : Error → Bool
is_busy error = elim error [ blocking_io_error ↦ true | _ ↦ false ]

-- behind one attempt: a full ring is tried `again`, where that is still allowed
abbrev pub after_write :
    Bool → Result (Unit {0}) → Runtime → Result (Unit {0}) × Runtime → Result (Unit {0}) × Runtime
after_write retry (ok _) rt again = (ok tt, rt)
after_write retry (raise error) rt again =
    if is_busy error then if retry then again else (raise runtime_error, rt) else (raise error, rt)

-- `_write_bridge_reply`: on a full ring the frame is tried again until the deadline, here after `retries`
-- more attempts, or until the daemon stops
unfoldable pub write_reply : Bool → ℕ → Entry → Action (Unit {0})
unfolding write_entry
write_reply stopping zero e rt =
    let (outcome, rt') = write_entry e rt in
    after_write false outcome rt' (raise runtime_error, rt')
write_reply stopping (suc retries) e rt =
    let (outcome, rt') = write_entry e rt in
    let again = write_reply stopping retries e rt' in after_write (not stopping) outcome rt' again

-- how a round of `_bridge_worker_loop` ends: with the next one, with the return at a shutdown, or with
-- an exception, which ends the thread
pub data WorkerEnd : Type 0 where
  goes_on returns dies : WorkerEnd

-- the status and data of the reply, and `bridge_error`
abbrev pub answer_of : Result (ℤ × Bytes) → (ℤ × Bytes) × Bool
answer_of (ok answer) = (answer, false)
answer_of (raise e) = ((neg eio, []), true)

-- `_set_desynced_from_bridge_failure`
abbrev pub set_desynced : Runtime → Runtime
set_desynced rt = record rt { runtime_state = desynced }

abbrev pub after_failure : Bool → Runtime → WorkerEnd × Runtime
after_failure true rt = (returns, request_finished true rt)
after_failure false rt = (goes_on, request_finished true (set_desynced rt))

-- `OSError` and `RuntimeError` are caught
abbrev pub is_caught : Error → Bool
is_caught error = elim error [
  | os_error ↦ true
  | blocking_io_error ↦ true
  | runtime_error ↦ true
  | _ ↦ false
]

abbrev pub after_reply : Bool → Bool → Result (Unit {0}) × Runtime → WorkerEnd × Runtime
after_reply stopping bridge_error (ok _, rt) = (goes_on, request_finished bridge_error rt)
after_reply stopping bridge_error (raise error, rt) =
    if is_caught error then after_failure stopping rt else (dies, request_finished bridge_error rt)

-- a round of `_bridge_worker_loop`: the task is handled and answered
unfoldable pub worker_step : Meanwhile → Bool → ℕ → Task → Runtime → WorkerEnd × Runtime
unfolding request_started request_finished handle_bridge_request write_reply
worker_step m stopping retries t rt =
    let (result, rt') =
      handle_bridge_request m t.msg_type t.message_id t.payload (request_started rt) in
    let (answer, bridge_error) = answer_of result in
    if reply_fits answer.0 answer.1
    then after_reply stopping bridge_error
        (write_reply stopping retries (reply_entry t answer.0 answer.1) rt')
    else (dies, request_finished bridge_error rt')
