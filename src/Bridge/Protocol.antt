-- ===== src/Bridge/Protocol.antt =====
-- src/sensorium/runtime/bridge_protocol.py: the constants and the functions outside the classes. The sizes are those of the
-- packed structs.
pub mod Names
use Prim.Native.Nat.{◌*◌}
use sensorium.Base.{
  ℕ, zero, suc, ◌+◌, ◌-◌, ◌^◌, Bool, true, false, ◌&&◌, ◌||◌, List, [], ◌∷◌, ◌++◌, Option, none,
  some, if◌then◌else◌, ltb, leb, ◌==◌, Bytes, length, replicate, lookup, Text, codes,
}
use sensorium.Base.Result.{Result, ok, raise, value_error}

abbrev pub max_payload : ℕ
max_payload = 4 * 1024 * 1024

abbrev pub abi_version : ℕ
abi_version = 5

abbrev pub cmd_reset : ℕ
cmd_reset = 1

abbrev pub cmd_bus_add : ℕ
cmd_bus_add = 2

abbrev pub cmd_bus_remove : ℕ
cmd_bus_remove = 3

abbrev pub cmd_device_add : ℕ
cmd_device_add = 4

abbrev pub cmd_device_remove : ℕ
cmd_device_remove = 5

abbrev pub cmd_uart_inject_rx : ℕ
cmd_uart_inject_rx = 6

abbrev pub cmd_uart_set_modem : ℕ
cmd_uart_set_modem = 7

abbrev pub cmd_reply : ℕ
cmd_reply = 8

abbrev pub cmd_hello : ℕ
cmd_hello = 9

abbrev pub cmd_hello_ack : ℕ
cmd_hello_ack = 10

abbrev pub queue_class_control : ℕ
queue_class_control = 1

abbrev pub queue_class_transport : ℕ
queue_class_transport = 2

abbrev pub queue_class_reply : ℕ
queue_class_reply = 3

-- `V5_DESC_STRUCT.size`
abbrev pub desc_size : ℕ
desc_size = 36

-- FIXED_COMMAND_SIZES
abbrev pub fixed_command_sizes : List (ℕ × ℕ)
fixed_command_sizes =
    (cmd_reset, 0)
    ∷ (cmd_bus_add, 76)
    ∷ (cmd_bus_remove, 4)
    ∷ (cmd_device_add, 92)
    ∷ (cmd_device_remove, 4)
    ∷ (cmd_uart_set_modem, 12)
    ∷ []

-- an expected size that the payload does not have
abbrev pub wrong_size : Option ℕ → ℕ → Bool
wrong_size none n = false
wrong_size (some expected) n = if n == expected then false else true

unfoldable pub validate_command_payload : ℕ → Bytes → Result (Unit {0})
validate_command_payload msg_type payload =
    if ltb max_payload (length payload)
    then raise value_error
    else if wrong_size (lookup ◌==◌ msg_type fixed_command_sizes) (length payload)
    then raise value_error
    else ok tt

-- `encode_c_string`, from the UTF-8 bytes of the text
unfoldable pub encode_c_string : Bytes → ℕ → Result Bytes
encode_c_string encoded len =
    if leb len (length encoded)
    then raise value_error
    else ok (encoded ++ replicate (len - length encoded) 0)

-- `decode_c_string`: `value.split(b"\0", 1)[0]`
pub decode_c_string : Bytes → Bytes
decode_c_string [] = []
decode_c_string (b ∷ bs) = if b == 0 then [] else b ∷ decode_c_string bs

-- `str.isdigit`, for a port name of ASCII characters: the digits of other scripts, which it takes as well,
-- are left out
abbrev pub is_digit : ℕ → Bool
is_digit c = leb b'0' c && leb c b'9'

abbrev pub is_name_start : ℕ → Bool
is_name_start c = leb b'A' c && leb c b'Z' || (leb b'a' c && leb c b'z') || c == b'_'

abbrev pub all_of : (ℕ → Bool) → Text → Bool
all_of p [] = true
all_of p (c ∷ s) = p c && all_of p s

abbrev pub is_base : Text → Bool
is_base [] = false
is_base (c ∷ s) = is_name_start c && all_of (λ c. is_name_start c || is_digit c) s

abbrev pub split_cons : ℕ → Text → Text → Text × Text
split_cons c [] suffix = if is_digit c then ([], c ∷ suffix) else (c ∷ [], suffix)
split_cons c (b ∷ base) suffix = (c ∷ b ∷ base, suffix)

-- The cut of `parse_tty_name`: the digits at the end are the longest suffix of digits.
unfoldable pub split_digits : Text → Text × Text
split_digits [] = ([], [])
split_digits (c ∷ s) = let (base, suffix) = split_digits s in split_cons c base suffix

-- `int(suffix, 10)`
unfoldable pub decimal : ℕ → Text → ℕ
decimal acc [] = acc
decimal acc (c ∷ s) = decimal (acc * 10 + (c - 48)) s

unfoldable pub parse_tty_name : Text → Result (Text × ℕ)
unfolding split_digits decimal
parse_tty_name value =
    let (base, suffix) = split_digits value in
    if length value == 0
    then raise value_error
    else if length suffix == 0 || length base == 0
    then raise value_error
    else if is_base base
    then ok (base, decimal 0 suffix)
    else raise value_error
