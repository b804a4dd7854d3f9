-- ===== src/Normalize/Restore/HexBytes.antt =====
-- src/sensorium/runtime/model_base.py, `normalize_bytes_literal`, over the hex texts of its own results.
use sensorium.Base.{
  ℕ, ◌+◌, ◌*◌, ◌/◌, ◌%◌, ◌<◌, ◌≡◌, refl, ap, ◌∙◌, arith, Bool, true, false, ◌&&◌, ◌||◌, [], ◌∷◌,
  some, ◌==◌, Text, Bytes, codes, starts_with,
}
use sensorium.Base.Result.{ok}
use sensorium.Normalize.Values.{str}
use sensorium.Normalize.Words.{rstrip, strip, within, hex_digit, bytes_hex, fromhex}
use sensorium.Normalize.Expect.{expect_bytes, compact, without, is_even}
use sensorium.Normalize.Restore.Numbers.{
  AllHex, hex_digit-value, hex_digit-ne, lstrip-hex, rstrip-hex,
}

abbrev pub AllBytes : Bytes → Type 0
AllBytes [] = Unit
AllBytes (b ∷ bs) = (b < 256) × AllBytes bs

bytes_hex-AllHex : (bs : Bytes) → AllBytes bs → AllHex (bytes_hex bs)
unfolding bytes_hex
bytes_hex-AllHex [] h = tt
bytes_hex-AllHex (b ∷ bs) h =
    ((b / 16, omega arith, refl), ((b % 16, omega arith, refl), bytes_hex-AllHex bs h.1))

is_even-bytes_hex : (bs : Bytes) → is_even (bytes_hex bs) ≡ true
unfolding bytes_hex
is_even-bytes_hex [] = refl
is_even-bytes_hex (b ∷ bs) = is_even-bytes_hex bs

hex_digit-skip : (d : ℕ) → d < 16 → (within 9 13 (hex_digit d) || hex_digit d == 32) ≡ false
hex_digit-skip d h = ground arith

fromhex-bytes_hex : (bs : Bytes) → AllBytes bs → fromhex (bytes_hex bs) ≡ some bs
unfolding fromhex bytes_hex
fromhex-bytes_hex [] h = refl
fromhex-bytes_hex (b ∷ bs) h =
    let sum : b / 16 * 16 + b % 16 ≡ b = omega arith in
    rw
      (
        hex_digit-skip (b / 16) (omega arith),
        hex_digit-value (b / 16) (omega arith),
        hex_digit-value (b % 16) (omega arith),
        fromhex-bytes_hex bs h.1,
        sum,
      )
      refl

without-hex :
    (c : ℕ) (t : Text)
    → ((d : ℕ) → d < 16 → (hex_digit d == c) ≡ false)
    → AllHex t
    → without c t ≡ t
without-hex c [] apart h = refl
without-hex c (x ∷ t) apart ((d, lt, e), h) = rw (without-hex c t apart h, e, apart d lt) refl

hex_digit-ne_x : (d : ℕ) → d < 16 → (hex_digit d == b'x') ≡ false
hex_digit-ne_x d h = ground arith

hex_digit-ne_t : (d : ℕ) → d < 16 → (hex_digit d == b't') ≡ false
hex_digit-ne_t d h = ground arith

hex_digit-ne_space : (d : ℕ) → d < 16 → (hex_digit d == b' ') ≡ false
hex_digit-ne_space d h = ground arith

and_false : (b : Bool) → (b && false) ≡ false
and_false true = refl
and_false false = refl

-- no two hexadecimal digits are `0x`, and the first one is not the `t` of `text:`
no_prefix : (t : Text) → AllHex t → starts_with (codes "0x") t ≡ false
no_prefix [] h = refl
no_prefix (x ∷ []) h = and_false (x == b'0')
no_prefix (x ∷ y ∷ t) (hx, ((d, lt, e), h)) = rw (e, hex_digit-ne_x d lt) (and_false (x == b'0'))

no_text : (t : Text) → AllHex t → starts_with (codes "text:") t ≡ false
no_text [] h = refl
no_text (x ∷ t) ((d, lt, e), h) = rw (e, hex_digit-ne_t d lt) refl

strip-hex : (t : Text) → AllHex t → strip t ≡ t
unfolding strip
strip-hex t h = ap rstrip (lstrip-hex t h) ∙ rstrip-hex t h

compact-hex : (t : Text) → AllHex t → is_even t ≡ true → compact t ≡ t
compact-hex t h even =
    rw
      (
        without-hex b' ' t hex_digit-ne_space h,
        without-hex b'_' t hex_digit-ne h,
        no_prefix t h,
        even,
      )
      refl

pub expect_bytes-bytes_hex : (bs : Bytes) → AllBytes bs → expect_bytes (str (bytes_hex bs)) ≡ ok bs
unfolding expect_bytes
expect_bytes-bytes_hex bs h =
    let t = bytes_hex bs in
    let hex : AllHex t = bytes_hex-AllHex bs h in
    rw
      (
        strip-hex t hex,
        no_text t hex,
        compact-hex t hex (is_even-bytes_hex bs),
        fromhex-bytes_hex bs h,
      )
      refl
