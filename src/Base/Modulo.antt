-- ===== src/Base/Modulo.antt =====
-- Steps round a ring of `s` places.
use native.Mathlib.Nat.{mod-add-mod, mod-eq_of_lt, mod-eq-sub-mod}
use native.Mathlib.Decide.{dec_lt}
use Prim.Native.Nat.{ℕ, ◌+◌, ◌-◌, ◌%◌, ◌<◌}
use mathlib.Core.Path.{◌≡◌}
use mathlib.Core.Logic.{◌≢◌, ◌⊎◌, inl, inr}
use native.Mathlib.Omega.{arith}

-- fewer than `s` steps from a place go on, or round the end once
pub mod-add_cases : (a k s : ℕ) → k < s → ((a + k) % s ≡ a % s + k) ⊎ ((a + k) % s + s ≡ a % s + k)
mod-add_cases a k s ks = elim (dec_lt (a % s + k) s) [
  | yes p ↦ inl (omega (arith, mod-add-mod a s k, mod-eq_of_lt p))
  | no p ↦ inr (
      omega (
        arith,
        mod-add-mod a s k,
        mod-eq-sub-mod {n = a % s + k} {m = s} (omega arith),
        mod-eq_of_lt {n = a % s + k - s} {m = s} (omega arith),
      ))
]

pub mod-add-ne : (a k s : ℕ) → 0 < k → k < s → (a + k) % s ≢ a % s
mod-add-ne a k s hk ks = omega (arith, mod-add_cases a k s ks)
