-- ===== src/Bridge/Protocol/Names.antt =====
-- src/sensorium/runtime/bridge_protocol.py: the fixed-size names and the tty-style port names.
use sensorium.Base.{
  ℕ, zero, suc, ◌-◌, ◌<◌, ◌≤◌, ◌≡◌, ◌⊎◌, inl, inr, leb, Bool-cases, refl, sym, ap, ◌∙◌, Bool, true,
  false, not, arith, ◌==◌, [], ◌∷◌, ◌++◌, Bytes, Text, length, replicate, length-append,
  length-replicate,
}
use sensorium.Base.Result.{ok, raise, value_error}
use sensorium.Bridge.Protocol.{
  encode_c_string, decode_c_string, is_digit, all_of, split_cons, split_digits, decimal,
  parse_tty_name,
}

abbrev pub is_nonzero : ℕ → Bool
is_nonzero b = not (b == 0)

decode-pad : (n : ℕ) → decode_c_string (replicate n 0) ≡ []
unfolding decode_c_string
decode-pad zero = refl
decode-pad (suc n) = refl

decode-append_pad :
    (bs : Bytes) (n : ℕ) → all_of is_nonzero bs ≡ true → decode_c_string (bs ++ replicate n 0) ≡ bs
unfolding decode_c_string
decode-append_pad [] n h = decode-pad n
decode-append_pad (b ∷ bs) n h = ground (arith, decode-append_pad bs n)

length-padded :
    (bs : Bytes) (n : ℕ) → length bs < n → length (bs ++ replicate (n - length bs) 0) ≡ n
length-padded bs n h = ground (
  arith,
  length-append bs (replicate (n - length bs) 0),
  length-replicate {A = ℕ} (n - length bs) 0,
)

-- A name without a NUL that is shorter than the field is encoded, fills the field and is read back as it was;
-- one that is not shorter is refused.
pub decode-encode_c_string :
    (bs : Bytes) (n : ℕ)
    → all_of is_nonzero bs ≡ true
    → ((length bs < n)
        × ((out : Bytes) × (encode_c_string bs n ≡ ok out)
            × (decode_c_string out ≡ bs)
            × (length out ≡ n)))
      ⊎ ((n ≤ length bs) × (encode_c_string bs n ≡ raise value_error))
unfolding encode_c_string
decode-encode_c_string bs n h = elim (Bool-cases (leb n (length bs))) [
  | inl long ↦ inr (ground arith, rw long refl)
  | inr short ↦ inl (
    ground arith,
    (
      bs ++ replicate (n - length bs) 0,
      rw short refl,
      decode-append_pad bs (n - length bs) h,
      length-padded bs n (ground arith),
    ),
  )
]

abbrev pub ends_in_digit : Text → Bool
ends_in_digit [] = false
ends_in_digit (c ∷ []) = is_digit c
ends_in_digit (c ∷ d ∷ s) = ends_in_digit (d ∷ s)

IsSplit : Text → Text × Text → Type 0
IsSplit value (base, suffix) =
    (value ≡ base ++ suffix) × (all_of is_digit suffix ≡ true) × (ends_in_digit base ≡ false)

split_cons_lem :
    (c : ℕ) (s base suffix : Text)
    → IsSplit s (base, suffix)
    → IsSplit (c ∷ s) (split_cons c base suffix)
unfolding IsSplit
split_cons_lem c s [] suffix h = ground arith
split_cons_lem c s (b ∷ base) suffix h = (ap (λ t. c ∷ t) h.0, h.1, h.2)

split_digits_lem : (value : Text) → IsSplit value (split_digits value)
unfolding split_digits IsSplit
split_digits_lem [] = (refl, refl, refl)
split_digits_lem (c ∷ s) =
    let (base, suffix) = split_digits s in split_cons_lem c s base suffix (split_digits_lem s)

-- `value` is the base, followed by the decimal digits of the number
pub record IsTtyName (value base : Text) (number : ℕ) : Type 0 where
  pub suffix : Text
  pub whole : value ≡ base ++ suffix
  pub digits : all_of is_digit suffix ≡ true
  pub base_ends : ends_in_digit base ≡ false
  pub some_base : 0 < length base
  pub some_suffix : 0 < length suffix
  pub number_read : number ≡ decimal 0 suffix

-- A port name that is accepted is a base that is not empty and does not end in a digit, followed by a
-- decimal number of at least one digit.
pub parse_tty_name_lem :
    (value base : Text) (number : ℕ)
    → parse_tty_name value ≡ ok (base, number)
    → IsTtyName value base number
unfolding parse_tty_name IsSplit
parse_tty_name_lem value base number e =
    let split = split_digits_lem value in
    let parts : (base ≡ (split_digits value).0)
        × (number ≡ decimal 0 (split_digits value).1)
        × (0 < length (split_digits value).0)
        × (0 < length (split_digits value).1) =
      ground arith in
    record {
      suffix = (split_digits value).1;
      whole = split.0 ∙ ap (λ t. t ++ (split_digits value).1) (sym parts.0);
      digits = split.1;
      base_ends = ap ends_in_digit parts.0 ∙ split.2;
      some_base = rw parts.0 parts.2;
      some_suffix = parts.3;
      number_read = parts.1;
    }
