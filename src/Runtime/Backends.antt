-- ===== src/Runtime/Backends.antt =====
-- src/sensorium/runtime/backends.py, and `_complete_pending_controller` and
-- `_fail_managed_pending_locked` of managed_workers.py: what controllers and workers call.
pub mod Queues
use sensorium.Base.{
  ℕ, ◌+◌, Bool, true, false, not, ◌&&◌, ◌||◌, List, [], ◌∷◌, ◌++◌, map, Option, none, some,
  if◌then◌else◌, Bytes, Text, length, lookup, insert, remove, bytes_eq, ◌==◌, ℤ, pos, neg, to_le,
}
use sensorium.Base.Result.{Result, ok, raise, runtime_error, ◌>>=◌, ◌>>◌}
use sensorium.Device.{
  Device, Backend, template_backend, controller_backend, Transport, i2c, spi, uart, Worker,
}
use sensorium.Bridge.Protocol.{cmd_uart_inject_rx, cmd_uart_set_modem}
use sensorium.Template.Uart.{collect_bits, modem_bit}
use sensorium.Runtime.{
  Runtime, DaemonState, empty, applying, ready, degraded, desynced, Event, Pending, BridgeStats,
  Action,
}
use sensorium.Runtime.Outside.{write_frame, persist_snapshot}
use sensorium.Runtime.Requests.{device_of, modify_device}

-- `_assert_mutation_allowed_locked`
unfoldable pub assert_mutation_allowed : Runtime → Result (Unit {0})
assert_mutation_allowed rt = elim rt.runtime_state [ desynced ↦ raise runtime_error | _ ↦ ok tt ]

abbrev pub queue_of : Text → Runtime → List Event
queue_of backend_id rt = elim (lookup bytes_eq backend_id rt.backend_queues) [
  | none ↦ []
  | some q ↦ q
]

-- `self.backend_queues.setdefault(backend_id, deque())`
unfoldable pub with_queue : Text → Runtime → Runtime
with_queue backend_id rt = record rt {
  backend_queues = insert bytes_eq backend_id (queue_of backend_id rt) rt.backend_queues;
}

abbrev pub attachable : Option Device → Result (Unit {0})
attachable none = raise runtime_error
attachable (some d) = elim d.backend [
  | template_backend t ↦ raise runtime_error
  | controller_backend worker ↦ elim worker [ none ↦ ok tt | some w ↦ raise runtime_error ]
]

-- the first loop of `_attach_backend_locked`
unfoldable pub validate_attach : List Text → Runtime → Result (Unit {0})
validate_attach [] rt = ok tt
validate_attach (id ∷ ids) rt =
    let rest = validate_attach ids rt in attachable (device_of id rt) >> rest

unfoldable pub set_attached : Option Text → List Text → Runtime → Runtime
unfolding modify_device
set_attached backend [] rt = rt
set_attached backend (id ∷ ids) rt =
    set_attached backend ids (modify_device id (λ d. record d { attached_backend = backend }) rt)

-- `_attach_backend_locked`: the number of queued events
unfoldable pub attach_backend_locked : Text → List Text → Action ℕ
unfolding with_queue validate_attach set_attached
attach_backend_locked backend_id ids rt =
    let rt' = with_queue backend_id rt in
    elim (validate_attach ids rt') [
      | raise e ↦ (raise e, rt')
      | ok _ ↦ (ok (length (queue_of backend_id rt')), set_attached (some backend_id) ids rt')
    ]

-- the end of an operation that persists what it did, when it did it
abbrev pub persisted : {A : Type 0} → Result A × Runtime → Result A × Runtime
persisted (ok a, rt) = (ok a, persist_snapshot rt)
persisted (raise e, rt) = (raise e, rt)

abbrev pub guarded : {A : Type 0} → Action A → Action A
guarded act rt = elim (assert_mutation_allowed rt) [ raise e ↦ (raise e, rt) | ok _ ↦ act rt ]

unfoldable pub attach_backend : Text → List Text → Action ℕ
unfolding assert_mutation_allowed attach_backend_locked persist_snapshot
attach_backend backend_id ids = guarded (λ rt. persisted (attach_backend_locked backend_id ids rt))

-- whether a device is there and attached to the backend
abbrev pub is_attached : Text → Option Device → Bool
is_attached backend_id none = false
is_attached backend_id (some d) = elim d.attached_backend [
  | none ↦ false
  | some b ↦ bytes_eq b backend_id
]

-- the loop of `detach_backend`, with the ids that it detached
unfoldable pub detach_all : Text → List Text → Runtime → List Text × Runtime
unfolding set_attached
detach_all backend_id [] rt = ([], rt)
detach_all backend_id (id ∷ ids) rt =
    let (detached, rt') = detach_all backend_id ids (set_attached none (id ∷ []) rt) in
    let rest = detach_all backend_id ids rt in
    if is_attached backend_id (device_of id rt) then (id ∷ detached, rt') else rest

abbrev pub targets : List Text → Runtime → List Text
targets [] rt = map (λ (p : Text × Device). p.0) rt.devices
targets (id ∷ ids) rt = id ∷ ids

unfoldable pub detach_backend : Text → List Text → Action (List Text)
unfolding assert_mutation_allowed detach_all persist_snapshot
detach_backend backend_id ids = guarded (λ rt.
    let (detached, rt') = detach_all backend_id (targets ids rt) rt in
    (ok detached, persist_snapshot rt'))

-- `poll_next_event`
unfoldable pub poll_next_event : Text → Runtime → Option Event × Runtime
unfolding with_queue
poll_next_event backend_id rt = elim (queue_of backend_id rt) [
  | [] ↦ (none, with_queue backend_id rt)
  | e ∷ rest ↦
      (some e, record rt { backend_queues = insert bytes_eq backend_id rest rt.backend_queues })
]

-- `_late_reply`
unfoldable pub late_reply : Runtime → Runtime
late_reply rt =
    let stats : BridgeStats = record (rt.bridge_stats) {
      late_replies = rt.bridge_stats.late_replies + 1;
    } in
    record rt { bridge_stats = stats }

-- `_complete_pending_controller`; a second reply replaces the first
unfoldable pub complete_pending : ℕ → ℤ → Bytes → Runtime → Bool × Runtime
unfolding late_reply
complete_pending request_id status reply rt = elim (lookup ◌==◌ request_id rt.pending_controller) [
  | none ↦ (false, late_reply rt)
  | some p ↦
      let p' : Pending = record p { status = status; reply = reply; done = true } in
      (true, record rt { pending_controller = insert ◌==◌ request_id p' rt.pending_controller })
]

-- `reply_event`
unfoldable pub reply_event : ℕ → ℤ → Bytes → Action ℕ
unfolding complete_pending late_reply
reply_event request_id status reply rt = elim (lookup ◌==◌ request_id rt.pending_controller) [
  | none ↦ (raise runtime_error, late_reply rt)
  | some p ↦ (ok request_id, (complete_pending request_id status reply rt).1)
]

abbrev failed_pending : ℤ → Pending → Pending
failed_pending status p = record p { status = status; reply = []; done = true }

-- `_fail_managed_pending_locked`: the requests of a device leave the dictionary, completed
unfoldable pub fail_pending :
    Text → ℤ → List (ℕ × Pending) → List (ℕ × Pending) × List (ℕ × Pending)
fail_pending device_id status [] = ([], [])
fail_pending device_id status ((k, p) ∷ rest) =
    let (kept, failed) = fail_pending device_id status rest in
    if bytes_eq p.event.device_id device_id
    then (kept, (k, failed_pending status p) ∷ failed)
    else ((k, p) ∷ kept, failed)

unfoldable pub fail_managed_pending : Text → ℤ → Runtime → Runtime
unfolding fail_pending
fail_managed_pending device_id status rt =
    let (kept, failed) = fail_pending device_id status rt.pending_controller in
    record rt { pending_controller = kept; released = failed ++ rt.released }

-- the UART device that an operation is for
abbrev uart_device : Option Device → Result Device
uart_device none = raise runtime_error
uart_device (some d) = elim d.transport [ uart ↦ ok d | _ ↦ raise runtime_error ]

abbrev send_to : Result Device → (Device → Bytes) → ℕ → Action (Unit {0})
send_to (raise e) payload msg_type rt = (raise e, rt)
send_to (ok d) payload msg_type rt = write_frame msg_type (payload d) rt

-- `inject_uart_rx`, with UART_RX_PREFIX_STRUCT
unfoldable pub inject_uart_rx : Text → Bytes → Action (Unit {0})
unfolding assert_mutation_allowed write_frame
inject_uart_rx device_id bytes = guarded (λ rt.
    send_to (uart_device (device_of device_id rt))
      (λ d. to_le 4 d.handle ++ (to_le 4 0 ++ (to_le 4 (length bytes) ++ bytes))) cmd_uart_inject_rx
      rt)

abbrev pub known_signals : List (Text × Bool) → Bool
known_signals [] = true
known_signals ((name, enabled) ∷ rest) = elim (modem_bit name) [
  | none ↦ false
  | some bit ↦ known_signals rest
]

abbrev pub modem_payload : ℕ → ℕ × ℕ → Bytes
modem_payload handle (mask, values) = to_le 4 handle ++ (to_le 4 mask ++ to_le 4 values)

-- `set_uart_modem`
unfoldable pub set_uart_modem : Text → List (Text × Bool) → Action (Unit {0})
unfolding assert_mutation_allowed write_frame
set_uart_modem device_id signals rt =
    if known_signals signals
    then guarded
        (λ rt'.
          send_to (uart_device (device_of device_id rt'))
            (λ d. modem_payload d.handle (collect_bits signals (0, 0))) cmd_uart_set_modem rt')
        rt
    else (raise runtime_error, rt)
