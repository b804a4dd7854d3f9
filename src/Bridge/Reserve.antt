-- ===== src/Bridge/Reserve.antt =====
-- src/sensorium/runtime/bridge_protocol.py: where `_reserve_payload` puts a payload, and what happens
-- where a counter passes 2 ^ 32.
use native.Mathlib.Nat.{mod-add-mod, mod_self, mod-eq_of_lt, mul-add-mod_self_right}
use sensorium.Base.{ℕ, ◌+◌, ◌-◌, ◌%◌, ◌*◌, ◌^◌, ◌≤◌, ◌<◌, ◌≡◌, ap, ◌∙◌, sym, ◌⊎◌, arith}
use sensorium.Base.Result.{ok, raise, blocking_io_error}
use sensorium.Bridge.{reserve_payload}

-- the start of the next zone
round_up : (tail zone : ℕ) → 0 < zone → (tail + (zone - tail % zone)) % zone ≡ 0
round_up tail zone h =
    let below : tail % zone < zone = omega arith in
    let whole : tail % zone + (zone - tail % zone) ≡ zone = omega arith in
    sym (mod-add-mod tail zone (zone - tail % zone)) ∙ ap (λ k. k % zone) whole ∙ mod_self zone

-- A reserved place starts at or behind the tail, lies inside the zone without going round its end, and
-- ends at most one zone behind the head.
pub reserve_payload_lem :
    (head tail zone n start : ℕ)
    → 0 < zone
    → 0 < n
    → n ≤ zone
    → reserve_payload head tail zone n ≡ ok start
    → (tail ≤ start) × (start % zone + n ≤ zone) × (start + n ≤ head + zone)
unfolding reserve_payload
reserve_payload_lem head tail zone n start hz hn le e = ground (arith, round_up tail zone hz)

-- Near 2 ^ 32 the place does not fit its field. Where the zone's size divides 2 ^ 32 and a payload does
-- not fit between the tail and 2 ^ 32, the place that is looked at is 2 ^ 32, which no 32-bit word holds,
-- whatever has been read.
pub reserve_past_u32 :
    (head k zone d n : ℕ)
    → k * zone + zone ≡ 2 ^ 32
    → 0 < d
    → d < zone
    → n ≤ zone
    → zone < d + n
    → (reserve_payload head (k * zone + d) zone n ≡ ok (2 ^ 32))
      ⊎ (reserve_payload head (k * zone + d) zone n ≡ raise blocking_io_error)
unfolding reserve_payload
reserve_past_u32 head k zone d n e hd dz nz full =
    let place : (k * zone + d) % zone ≡ d = mul-add-mod_self_right k zone d ∙ mod-eq_of_lt dz in
    ground (arith, place)
