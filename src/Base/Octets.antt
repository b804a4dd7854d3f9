-- ===== src/Base/Octets.antt =====
-- `bytes` as lists of numbers, and the little-endian fields of the `struct` module.
use Prim.Native.Nat.{ℕ, zero, suc, ◌+◌, ◌*◌, ◌/◌, ◌%◌, ◌^◌, ◌<◌}
use Prim.Native.Char.{code}
use Prim.Native.String.{String}
use mathlib.Core.Path.{◌≡◌, refl, ap}
use mathlib.Core.Logic.{◌↔◌}
use mathlib.Core.Bool.{Bool, true, false, ◌&&◌}
use mathlib.Core.List.{List, [], ◌∷◌, ◌++◌}
use native.Mathlib.Omega.{arith}
use sensorium.Base.Num.{◌==◌}
use sensorium.Base.Lists.{length, drop}

abbrev pub Bytes : Type 0
Bytes = List ℕ

-- a `str` as the list of its code points
abbrev pub Text : Type 0
Text = List ℕ

abbrev pub codes : String → Text
codes String.[] = []
codes (String.◌∷◌ c s) = code c ∷ codes s

abbrev pub bytes_eq : Bytes → Bytes → Bool
bytes_eq [] [] = true
bytes_eq (x ∷ xs) (y ∷ ys) = x == y && bytes_eq xs ys
bytes_eq _ _ = false

-- `s.startswith(prefix)`, the prefix first
abbrev pub starts_with : Bytes → Bytes → Bool
starts_with [] s = true
starts_with (p ∷ ps) [] = false
starts_with (p ∷ ps) (x ∷ s) = x == p && starts_with ps s

-- the unsigned field of `w` bytes at the front; a missing byte reads as 0
unfoldable pub le : ℕ → Bytes → ℕ
le zero bs = 0
le (suc w) [] = 0
le (suc w) (b ∷ bs) = b + 256 * le w bs

-- the `w` bytes of an unsigned field
unfoldable pub to_le : ℕ → ℕ → Bytes
to_le zero n = []
to_le (suc w) n = n % 256 ∷ to_le w (n / 256)

-- `<B`, `<H` and `<I` at an offset
abbrev pub u8_at : ℕ → Bytes → ℕ
u8_at o bs = le 1 (drop o bs)

abbrev pub u16_at : ℕ → Bytes → ℕ
u16_at o bs = le 2 (drop o bs)

abbrev pub u32_at : ℕ → Bytes → ℕ
u32_at o bs = le 4 (drop o bs)

-- `int.from_bytes(bs, "big")`
unfoldable pub from_be : ℕ → Bytes → ℕ
from_be acc [] = acc
from_be acc (b ∷ bs) = from_be (acc * 256 + b) bs

pub length-to_le : (w n : ℕ) → length (to_le w n) ≡ w
unfolding to_le
length-to_le zero n = refl
length-to_le (suc w) n = ap suc (length-to_le w (n / 256))

pub le-to_le_4 : (n : ℕ) (rest : Bytes) → n < 2 ^ 32 → le 4 (to_le 4 n ++ rest) ≡ n
unfolding le to_le
le-to_le_4 n rest h = omega arith

pub le-to_le_2 : (n : ℕ) (rest : Bytes) → n < 2 ^ 16 → le 2 (to_le 2 n ++ rest) ≡ n
unfolding le to_le
le-to_le_2 n rest h = omega arith

pub bytes_eq_iff : (xs ys : Bytes) → (bytes_eq xs ys ≡ true) ↔ (xs ≡ ys)
bytes_eq_iff [] [] = ground arith
bytes_eq_iff [] (y ∷ ys) = ground arith
bytes_eq_iff (x ∷ xs) [] = ground arith
bytes_eq_iff (x ∷ xs) (y ∷ ys) = ground (arith, bytes_eq_iff xs ys)

pub bytes_eq_refl : (xs : Bytes) → bytes_eq xs xs ≡ true
bytes_eq_refl xs = (bytes_eq_iff xs xs).1 refl
