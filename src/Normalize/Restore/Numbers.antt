-- ===== src/Normalize/Restore/Numbers.antt =====
-- src/sensorium/runtime/model_base.py, `expect_hex_int` and `normalize_bytes_literal`, over the numbers and the
-- hex texts that normalization writes.
use sensorium.Base.{
  ℕ, zero, suc, ◌+◌, ◌-◌, ◌*◌, ◌/◌, ◌%◌, ◌<◌, ◌≡◌, refl, ap, subst, ◌∙◌, arith, true, false, ◌&&◌,
  Bool-cases, inl, inr, [], ◌∷◌, ◌++◌, Option, none, some, leb, ◌==◌, Text, length, replicate,
  length-append, length-replicate, ℤ, pos, negsuc,
}
use sensorium.Base.Result.{ok, raise, runtime_error, ◌>>=◌}
use sensorium.Normalize.Values.{Value, null, other, bool, int, str, blob, arr, obj}
use sensorium.Normalize.Words.{
  is_space, lstrip, rstrip, strip, digit_of, below, digits, ungroup, number, magnitude, int_literal,
  hex_digit, hex_digits, hex_key,
}
use sensorium.Normalize.Expect.{found, at_most, in_bounds, expect_hex_int}

-- a number that passed lies within the bounds
in_bounds_again :
    (lo : ℕ) (hi : Option ℕ) (z : ℤ) (n : ℕ)
    → in_bounds lo hi z ≡ ok n
    → in_bounds lo hi (pos n) ≡ ok n
in_bounds_again lo hi (pos m) n h = elim (Bool-cases (leb lo m && at_most m hi)) [
  | inl fits ↦
      let same : ok m ≡ ok n = rw fits at h in
      let same' : m ≡ n = cc in subst (λ k. in_bounds lo hi (pos k) ≡ ok k) same' (rw fits refl)
  | inr misses ↦ let h' : raise runtime_error ≡ ok n = rw misses at h in cc
]
in_bounds_again lo hi (negsuc m) n h = cc

in_bounds-found :
    (lo : ℕ) (hi : Option ℕ) (o : Option ℤ) (n : ℕ)
    → (found o >>= in_bounds lo hi) ≡ ok n
    → in_bounds lo hi (pos n) ≡ ok n
in_bounds-found lo hi none n h = cc
in_bounds-found lo hi (some z) n h = in_bounds_again lo hi z n h

pub expect_hex_int-bounds :
    (lo : ℕ) (hi : Option ℕ) (v : Value) (n : ℕ)
    → expect_hex_int lo hi v ≡ ok n
    → in_bounds lo hi (pos n) ≡ ok n
unfolding expect_hex_int
expect_hex_int-bounds lo hi (int z) n h = in_bounds_again lo hi z n h
expect_hex_int-bounds lo hi (str s) n h = in_bounds-found lo hi (int_literal s) n h
expect_hex_int-bounds lo hi null n h = cc
expect_hex_int-bounds lo hi other n h = cc
expect_hex_int-bounds lo hi (bool b) n h = cc
expect_hex_int-bounds lo hi (blob bs) n h = cc
expect_hex_int-bounds lo hi (arr vs) n h = cc
expect_hex_int-bounds lo hi (obj fs) n h = cc

-- the number itself passes again
pub expect_hex_int_again :
    (lo : ℕ) (hi : Option ℕ) (v : Value) (n : ℕ)
    → expect_hex_int lo hi v ≡ ok n
    → expect_hex_int lo hi (int (pos n)) ≡ ok n
unfolding expect_hex_int
expect_hex_int_again lo hi v n h = expect_hex_int-bounds lo hi v n h

-- a lower-case hexadecimal digit
abbrev pub IsHex : ℕ → Type 0
IsHex c = (d : ℕ) × (d < 16) × (c ≡ hex_digit d)

abbrev pub AllHex : Text → Type 0
AllHex [] = Unit
AllHex (c ∷ s) = IsHex c × AllHex s

pub hex_digit-value : (d : ℕ) → d < 16 → below 16 (digit_of (hex_digit d)) ≡ some d
unfolding digit_of
hex_digit-value d h = ground arith

hex_digit-solid : (d : ℕ) → d < 16 → is_space (hex_digit d) ≡ false
unfolding is_space
hex_digit-solid d h = ground arith

pub hex_digit-ne : (d : ℕ) → d < 16 → (hex_digit d == b'_') ≡ false
hex_digit-ne d h = ground arith

hex_digits-AllHex : (f n : ℕ) (t : Text) → AllHex t → AllHex (hex_digits f n t)
unfolding hex_digits
hex_digits-AllHex zero n t h = h
hex_digits-AllHex (suc f) n t h = elim (Bool-cases (n == 0)) [
  | inl done ↦ rw (done, hex_digits) h
  | inr more ↦
      rw (more, hex_digits)
        (hex_digits-AllHex f (n / 16) (hex_digit (n % 16) ∷ t) ((n % 16, omega arith, refl), h))
]

zeros-AllHex : (k : ℕ) (t : Text) → AllHex t → AllHex (replicate k b'0' ++ t)
zeros-AllHex zero t h = h
zeros-AllHex (suc k) t h = ((0, omega arith, refl), zeros-AllHex k t h)

empty_digits : (n : ℕ) → digits 16 n [] ≡ some n
unfolding digits
empty_digits n = refl

-- such a text is its own stripped form, and has no underscore
pub lstrip-hex : (t : Text) → AllHex t → lstrip t ≡ t
unfolding lstrip
lstrip-hex [] h = refl
lstrip-hex (c ∷ t) ((d, lt, e), h) = rw (e, hex_digit-solid d lt) refl

pub rstrip-hex : (t : Text) → AllHex t → rstrip t ≡ t
unfolding rstrip
rstrip-hex [] h = refl
rstrip-hex (c ∷ t) ((d, lt, e), h) = rw (rstrip-hex t h, e, hex_digit-solid d lt) refl

ungroup-hex : (t : Text) → AllHex t → ungroup true t ≡ some t
unfolding ungroup
ungroup-hex [] h = refl
ungroup-hex (c ∷ t) ((d, lt, e), h) = rw (ungroup-hex t h, e, hex_digit-ne d lt) refl

digits-cons :
    (n d : ℕ) (t : Text) → d < 16 → digits 16 n (hex_digit d ∷ t) ≡ digits 16 (n * 16 + d) t
unfolding digits
digits-cons n d t h = rw (hex_digit-value d h, digits) refl

-- `16 ^ f`
abbrev pub pow16 : ℕ → ℕ
pow16 zero = 1
pow16 (suc f) = 16 * pow16 f

-- reading undoes writing
digits-hex_digits :
    (f n : ℕ) (t : Text) → n < pow16 f → digits 16 0 (hex_digits f n t) ≡ digits 16 n t
unfolding digits hex_digits
digits-hex_digits zero n t h = let e : n ≡ 0 = omega arith in rw e refl
digits-hex_digits (suc f) n t h = elim (Bool-cases (n == 0)) [
  | inl done ↦ let e : n ≡ 0 = ground arith in rw e refl
  | inr more ↦
      let sum : n / 16 * 16 + n % 16 ≡ n = omega arith in
      rw (more, hex_digits)
        (digits-hex_digits f (n / 16) (hex_digit (n % 16) ∷ t) (omega arith)
          ∙ (digits-cons (n / 16) (n % 16) t (omega arith) ∙ ap (λ k. digits 16 k t) sum))
]

digits-zeros : (k : ℕ) (t : Text) → digits 16 0 (replicate k b'0' ++ t) ≡ digits 16 0 t
digits-zeros zero t = refl
digits-zeros (suc k) t = digits-cons 0 0 (replicate k b'0' ++ t) (omega arith) ∙ digits-zeros k t

-- the digits of a key behind `0x`
abbrev key_digits : ℕ → ℕ → Text
key_digits w n = let s = hex_digits 16 n [] in replicate (w - length s) b'0' ++ s

number-key :
    (t : Text) (n w : ℕ) → 0 < length t → digits 16 0 t ≡ some n → number 16 (some t) ≡ some n
number-key [] n w full h = absurd (omega arith)
number-key (c ∷ t) n w full h = h

read_hex :
    (t : Text) (n : ℕ)
    → AllHex t
    → 0 < length t
    → digits 16 0 t ≡ some n
    → int_literal (b'0' ∷ b'x' ∷ t) ≡ some (pos n)
unfolding int_literal strip magnitude is_space lstrip rstrip
read_hex t n hex full h = rw (rstrip-hex t hex, ungroup-hex t hex, number-key t n 2 full h) refl

length-key : (w n : ℕ) → 0 < w → 0 < length (key_digits w n)
length-key w n h = omega (
  arith,
  length-append (replicate (w - length (hex_digits 16 n [])) b'0') (hex_digits 16 n []),
  length-replicate {A = ℕ} (w - length (hex_digits 16 n [])) b'0',
)

pub int_literal-hex_key :
    (w n : ℕ) → 0 < w → n < pow16 16 → int_literal (hex_key w n) ≡ some (pos n)
unfolding hex_key
int_literal-hex_key w n h small =
    read_hex (key_digits w n) n
      (zeros-AllHex (w - length (hex_digits 16 n [])) (hex_digits 16 n [])
        (hex_digits-AllHex 16 n [] tt))
      (length-key w n h)
      (digits-zeros (w - length (hex_digits 16 n [])) (hex_digits 16 n [])
        ∙ (digits-hex_digits 16 n [] small ∙ empty_digits n))

-- the key of a register is read back to the register
pub expect_hex_int-hex_key :
    (lo : ℕ) (hi : Option ℕ) (w n : ℕ)
    → 0 < w
    → n < pow16 16
    → in_bounds lo hi (pos n) ≡ ok n
    → expect_hex_int lo hi (str (hex_key w n)) ≡ ok n
unfolding expect_hex_int
expect_hex_int-hex_key lo hi w n h small fits = rw (int_literal-hex_key w n h small) fits
