-- ===== src/Normalize/Expect.antt =====
-- src/sensorium/runtime/model_base.py: the checks of one value. A RuntimeModelError is a RuntimeError; its
-- text, and with it the label of the value, is left out.
use sensorium.Base.{
  ℕ, ◌+◌, ◌/◌, ◌%◌, ltb, Bool, true, false, not, ◌&&◌, ◌||◌, [], ◌∷◌, ◌++◌, Option, none, some,
  if◌then◌else◌, leb, ◌==◌, Bytes, Text, codes, length, drop, starts_with, bytes_eq, ℤ, pos, negsuc,
}
use sensorium.Base.Result.{Result, ok, raise, runtime_error, ◌>>=◌}
use sensorium.Bridge.Protocol.{split_digits, decimal}
use sensorium.Normalize.Values.{Value, int, str, blob}
use sensorium.Normalize.Words.{
  strip, int_literal, fromhex, is_empty, is_digit, is_letter, is_name, all, decimal_digits,
}

abbrev pub checked {ℓ} : {A : Type ℓ} → Bool → A → Result A
checked true a = ok a
checked false a = raise runtime_error

abbrev pub found {ℓ} : {A : Type ℓ} → Option A → Result A
found none = raise runtime_error
found (some a) = ok a

-- `expect_string`
unfoldable pub expect_string : Value → Result Text
expect_string (str s) = checked (not (is_empty (strip s))) (strip s)
expect_string _ = raise runtime_error

-- `expect_string` with `strip=False`
abbrev pub expect_text : Value → Result Text
expect_text (str s) = checked (not (is_empty s)) s
expect_text _ = raise runtime_error

-- the test of a maximum, which may be missing
abbrev pub at_most : ℕ → Option ℕ → Bool
at_most n none = true
at_most n (some maximum) = leb n maximum

-- the bounds of `expect_hex_int`, whose minimum is never negative
abbrev pub in_bounds : ℕ → Option ℕ → ℤ → Result ℕ
in_bounds minimum maximum (pos n) = checked (leb minimum n && at_most n maximum) n
in_bounds minimum maximum (negsuc n) = raise runtime_error

-- `expect_hex_int`
unfoldable pub expect_hex_int : ℕ → Option ℕ → Value → Result ℕ
expect_hex_int minimum maximum (int n) = in_bounds minimum maximum n
expect_hex_int minimum maximum (str s) = found (int_literal s) >>= in_bounds minimum maximum
expect_hex_int minimum maximum _ = raise runtime_error

-- a check of the text that `expect_string` gives
abbrev pub text_where : (Text → Bool) → Value → Result Text
text_where p v = expect_string v >>= λ t. checked (p t) t

-- `expect_name`
unfoldable pub expect_name : Value → Result Text
expect_name = text_where is_name

-- a decimal index with no leading zeros: the digits that `str(int(s, 10))` gives back
unfoldable pub is_index : Text → Bool
is_index s =
    not (is_empty s) && all is_digit s && bytes_eq s (decimal_digits (length s) (decimal 0 s) [])

-- `expect_runtime_i2c_bus_name`
abbrev pub is_i2c_bus_name : Text → Bool
is_i2c_bus_name t = is_name t && starts_with (codes "i2c-") t && is_index (drop 4 t)

-- `expect_runtime_spi_bus_name`
abbrev pub is_spi_bus_name : Text → Bool
is_spi_bus_name t = is_name t && starts_with (codes "spi") t && is_index (drop 3 t)

abbrev pub is_base : Text → Bool
is_base [] = false
is_base (c ∷ s) = (is_letter c || c == b'_') && all (λ d. is_letter d || is_digit d || d == b'_') s

-- `split_runtime_numeric_suffix` and `expect_runtime_uart_port_name`. The shortest base before digits leaves
-- the longest suffix of digits.
unfoldable pub is_port_name : Text → Bool
is_port_name t = let (base, suffix) = split_digits t in is_name t && is_base base && is_index suffix

-- `s.replace(c, "")`
abbrev pub without : ℕ → Text → Text
without c [] = []
without c (d ∷ s) = if d == c then without c s else d ∷ without c s

abbrev pub without_prefix : Text → Text
without_prefix s = if starts_with (codes "0x") s then drop 2 s else s

abbrev pub is_even : Text → Bool
is_even [] = true
is_even (c ∷ []) = false
is_even (c ∷ d ∷ s) = is_even s

abbrev pub padded : Text → Text
padded s = if is_even s then s else b'0' ∷ s

-- the text that `normalize_bytes_literal` gives to `bytes.fromhex`
abbrev pub compact : Text → Text
compact s = padded (without_prefix (without b'_' (without b' ' s)))

-- `chr(c).encode("utf-8")`; a surrogate, at which Python raises, is taken for a scalar value
unfoldable pub utf8_char : ℕ → Bytes
utf8_char c =
    if ltb c 0x80
    then c ∷ []
    else if ltb c 0x800
    then (0xc0 + c / 64) ∷ (0x80 + c % 64) ∷ []
    else if ltb c 0x10000
    then (0xe0 + c / 4096) ∷ (0x80 + c / 64 % 64) ∷ (0x80 + c % 64) ∷ []
    else (0xf0 + c / 262144) ∷ (0x80 + c / 4096 % 64) ∷ (0x80 + c / 64 % 64) ∷ (0x80 + c % 64) ∷ []

unfoldable pub utf8 : Text → Bytes
utf8 [] = []
utf8 (c ∷ s) = utf8_char c ++ utf8 s

-- `normalize_bytes_literal`, with the bytes that its text is read to
unfoldable pub expect_bytes : Value → Result Bytes
expect_bytes (blob bs) = ok bs
expect_bytes (str s) =
    if starts_with (codes "text:") (strip s)
    then ok (utf8 (drop 5 (strip s)))
    else found (fromhex (compact (strip s)))
expect_bytes _ = raise runtime_error
