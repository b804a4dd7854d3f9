-- ===== src/Normalize/Words.antt =====
-- What src/sensorium/runtime/model_base.py uses of Python's texts: `strip`, `int(_, 0)`, `fromhex`, the
-- formats of numbers, and the patterns for names. Digits are those of ASCII.
use mathlib.Core.Option
use sensorium.Base.{
  ℕ, zero, suc, ◌+◌, ◌-◌, ◌*◌, ◌/◌, ◌%◌, Bool, true, false, not, ◌&&◌, ◌||◌, List, [], ◌∷◌, ◌++◌,
  Option, none, some, if◌then◌else◌, ltb, leb, ◌==◌, Bytes, Text, codes, length, drop, replicate,
  starts_with, ℤ, pos, neg,
}

abbrev pub within : ℕ → ℕ → ℕ → Bool
within lo hi c = leb lo c && leb c hi

-- `str.isspace` of one code point
unfoldable pub is_space : ℕ → Bool
is_space c =
    within 9 13 c
    || within 28 32 c
    || c == 0x85
    || c == 0xa0
    || c == 0x1680
    || within 0x2000 0x200a c
    || c == 0x2028
    || c == 0x2029
    || c == 0x202f
    || c == 0x205f
    || c == 0x3000

unfoldable pub lstrip : Text → Text
lstrip [] = []
lstrip (c ∷ s) = let rest = lstrip s in if is_space c then rest else c ∷ s

abbrev pub is_empty {ℓ} : {A : Type ℓ} → List A → Bool
is_empty [] = true
is_empty (x ∷ xs) = false

-- a code point before a text that is stripped at its end
abbrev pub before_end : ℕ → Text → Text
before_end c rest = if is_space c && is_empty rest then [] else c ∷ rest

unfoldable pub rstrip : Text → Text
rstrip [] = []
rstrip (c ∷ s) = before_end c (rstrip s)

-- `s.strip()`
unfoldable pub strip : Text → Text
unfolding lstrip rstrip is_space
strip s = rstrip (lstrip s)

-- the value of a digit or letter, as in `int(_, 36)`
unfoldable pub digit_of : ℕ → Option ℕ
digit_of c =
    if within b'0' b'9' c
    then some (c - b'0')
    else if within b'a' b'z' c
    then some (c - b'a' + 10)
    else if within b'A' b'Z' c
    then some (c - b'A' + 10)
    else none

abbrev pub below : ℕ → Option ℕ → Option ℕ
below base none = none
below base (some d) = if ltb d base then some d else none

unfoldable pub digits : ℕ → ℕ → Text → Option ℕ
digits base acc [] = some acc
digits base acc (c ∷ s) = elim (below base (digit_of c)) [
  | none ↦ none
  | some d ↦ digits base (acc * base + d) s
]

-- the digits without the underscores, each of which stands between two digits, or behind the prefix
unfoldable pub ungroup : Bool → Text → Option Text
ungroup digit_before [] = if digit_before then some [] else none
ungroup digit_before (c ∷ s) =
    let behind = if digit_before then ungroup false s else none in
    let onward = Option.map (λ (t : Text). c ∷ t) (ungroup true s) in
    if c == b'_' then behind else onward

abbrev pub number : ℕ → Option Text → Option ℕ
number base none = none
number base (some []) = none
number base (some (c ∷ s)) = digits base 0 (c ∷ s)

abbrev pub all_zero : Text → Bool
all_zero [] = true
all_zero (c ∷ s) = c == b'0' && all_zero s

-- a decimal literal has no leading zeros, unless it is zero
abbrev pub no_leading_zero : Option Text → Option Text
no_leading_zero none = none
no_leading_zero (some s) = if starts_with (codes "0") s && not (all_zero s) then none else some s

-- the literal behind its sign, by prefix
unfoldable pub magnitude : Text → Option ℕ
unfolding digits ungroup
magnitude s =
    if starts_with (codes "0x") s || starts_with (codes "0X") s
    then number 16 (ungroup true (drop 2 s))
    else if starts_with (codes "0o") s || starts_with (codes "0O") s
    then number 8 (ungroup true (drop 2 s))
    else if starts_with (codes "0b") s || starts_with (codes "0B") s
    then number 2 (ungroup true (drop 2 s))
    else number 10 (no_leading_zero (ungroup false s))

abbrev pub signed : (ℕ → ℤ) → Option ℕ → Option ℤ
signed sign none = none
signed sign (some n) = some (sign n)

abbrev pub with_sign : Text → Option ℤ
with_sign [] = none
with_sign (c ∷ s) =
    if c == b'-'
    then signed neg (magnitude s)
    else if c == b'+'
    then signed pos (magnitude s)
    else signed pos (magnitude (c ∷ s))

-- `int(s, 0)`, or `none` for a ValueError
unfoldable pub int_literal : Text → Option ℤ
unfolding strip magnitude
int_literal s = with_sign (strip s)

abbrev pub hex_digit : ℕ → ℕ
hex_digit d = if ltb d 10 then b'0' + d else b'a' + (d - 10)

-- the digits of a number before a text, with fuel for their count
unfoldable pub hex_digits : ℕ → ℕ → Text → Text
hex_digits zero n t = t
hex_digits (suc f) n t =
    let more = hex_digits f (n / 16) (hex_digit (n % 16) ∷ t) in if n == 0 then t else more

-- `f"0x{n:0{width}x}"` of a number of at most 16 hexadecimal digits
unfoldable pub hex_key : ℕ → ℕ → Text
unfolding hex_digits
hex_key width n =
    let s = hex_digits 16 n [] in codes "0x" ++ (replicate (width - length s) b'0' ++ s)

-- `bs.hex()`
unfoldable pub bytes_hex : Bytes → Text
bytes_hex [] = []
bytes_hex (b ∷ bs) = hex_digit (b / 16) ∷ hex_digit (b % 16) ∷ bytes_hex bs

abbrev pub hex_pair : Option ℕ → Option ℕ → Option Bytes → Option Bytes
hex_pair (some h) (some l) (some bs) = some ((h * 16 + l) ∷ bs)
hex_pair _ _ _ = none

-- `bytes.fromhex(s)`, which skips white space between the bytes
unfoldable pub fromhex : Text → Option Bytes
fromhex [] = some []
fromhex (c ∷ []) = if within 9 13 c || c == 32 then some [] else none
fromhex (c ∷ d ∷ s) =
    let skipped = fromhex (d ∷ s) in
    let bytes = hex_pair (below 16 (digit_of c)) (below 16 (digit_of d)) (fromhex s) in
    if within 9 13 c || c == 32 then skipped else bytes

abbrev pub is_digit : ℕ → Bool
is_digit c = within b'0' b'9' c

abbrev pub is_letter : ℕ → Bool
is_letter c = within b'a' b'z' c || within b'A' b'Z' c

abbrev pub all : (ℕ → Bool) → Text → Bool
all p [] = true
all p (c ∷ s) = p c && all p s

-- `[A-Za-z0-9._:-]+`
abbrev pub is_name_char : ℕ → Bool
is_name_char c = is_letter c || is_digit c || c == b'.' || c == b'_' || c == b':' || c == b'-'

abbrev pub is_name : Text → Bool
is_name s = not (is_empty s) && all is_name_char s

-- `str(n)`, with fuel for its digits
unfoldable pub decimal_digits : ℕ → ℕ → Text → Text
decimal_digits zero n t = t
decimal_digits (suc f) n t =
    let more = decimal_digits f (n / 10) ((b'0' + n % 10) ∷ t) in
    if ltb n 10 then (b'0' + n) ∷ t else more
