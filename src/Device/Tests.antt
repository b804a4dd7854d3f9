-- ===== src/Device/Tests.antt =====
-- Faults at concrete inputs.
use sensorium.Base.{◌≤◌, ◌<◌, ◌≡◌, refl, arith, none, some, [], ◌∷◌, pos, neg}
use sensorium.Device.{
  Fault, fault_timeout, fault_short_reply, no_fault, apply_fault_pre, apply_fault_post,
}
use sensorium.Device.Faults.{fault_reply, after_requests, fault_countdown}

abbrev twice : Fault
twice = record { mode = fault_timeout; remaining = 2; errno = none; reply_data = none }

fault_countdown_example :
    ((1 < 2) → fault_reply (after_requests 1 twice) ≡ fault_reply twice)
    × ((2 ≤ 1) → fault_reply (after_requests 1 twice) ≡ none)
fault_countdown_example = fault_countdown 1 twice tt (omega arith)

timeout_runs : apply_fault_pre twice ≡ (record twice { remaining = 1 }, some (neg 110, []))
unfolding apply_fault_pre
timeout_runs = refl

short_runs :
    apply_fault_post
      (record twice { mode = fault_short_reply; remaining = 1 })
      (pos 0)
      (1 ∷ 2 ∷ 3 ∷ [])
    ≡ (no_fault, pos 0, 1 ∷ [])
unfolding apply_fault_post
short_runs = refl
