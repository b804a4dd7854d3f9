-- ===== src/Device/Faults.antt =====
-- src/sensorium/runtime/internal.py: for how many requests a fault lasts.
use native.Mathlib.Decide.{dec_lt}
use sensorium.Base.{ℕ, zero, suc, ◌-◌, ◌≤◌, ◌<◌, ◌≡◌, refl, ◌∙◌, arith, ℤ, Bytes, Option, none}
use sensorium.Device.{
  Fault, FaultMode, fault_none, fault_short_reply, no_fault, consume_fault, apply_fault_pre,
}

-- the reply that a fault gives in place of the device
abbrev pub fault_reply : Fault → Option (ℤ × Bytes)
fault_reply f = (apply_fault_pre f).1

-- the fault behind `n` requests
abbrev pub after_requests : ℕ → Fault → Fault
after_requests zero f = f
after_requests (suc n) f = after_requests n (apply_fault_pre f).0

none_after : (n : ℕ) → after_requests n no_fault ≡ no_fault
unfolding apply_fault_pre
none_after zero = refl
none_after (suc n) = none_after n

-- the modes that answer in place of the device
abbrev pub IsHard : FaultMode → Type 0
IsHard fault_none = ⊥
IsHard fault_short_reply = ⊥
IsHard _ = Unit

pre_last : (f : Fault) → IsHard f.mode → f.remaining ≡ 1 → (apply_fault_pre f).0 ≡ no_fault
unfolding apply_fault_pre consume_fault
pre_last f hard h = ground arith

pre_more :
    (f : Fault)
    → IsHard f.mode
    → 1 < f.remaining
    → (apply_fault_pre f).0 ≡ record f { remaining = f.remaining - 1 }
unfolding apply_fault_pre consume_fault
pre_more f hard h = ground arith

reply_same : (f : Fault) (n : ℕ) → fault_reply (record f { remaining = n }) ≡ fault_reply f
unfolding apply_fault_pre
reply_same f n = ground arith

-- A fault that answers in place of the device, with a countdown, gives its reply to as many requests as
-- the countdown says; the requests behind those reach the device.
pub fault_countdown :
    (n : ℕ) (f : Fault)
    → IsHard f.mode
    → 0 < f.remaining
    → ((n < f.remaining) → fault_reply (after_requests n f) ≡ fault_reply f)
      × ((f.remaining ≤ n) → fault_reply (after_requests n f) ≡ none)
fault_countdown zero f hard h = ((λ _. refl), λ e. absurd (omega arith))
fault_countdown (suc n) f hard h = elim (dec_lt 1 f.remaining) [
  | no one ↦
      let gone = pre_last f hard (omega arith) in
      (
        (λ more. absurd (omega arith)),
        λ _. rw (gone, none_after n) (unfold apply_fault_pre in refl),
      )
  | yes more ↦
      let step = pre_more f hard more in
      let f' : Fault = record f { remaining = f.remaining - 1 } in
      let (within, behind) = fault_countdown n f' hard (omega arith) in
      (
        (λ h'. rw step (within (omega arith) ∙ reply_same f (f.remaining - 1))),
        λ h'. rw step (behind (omega arith)),
      )
]
