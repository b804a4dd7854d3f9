-- ===== src/Normalize/Restore/Scripts.antt =====
-- src/sensorium/runtime/model_normalize.py, the template's part of a backend, over what it gave.
use sensorium.Base.{
  ℕ, ◌-◌, ◌≤◌, ◌<◌, ◌≡◌, refl, ap, arith, true, List, [], ◌∷◌, ◌++◌, map, some, Bytes, codes, ◌==◌,
  bytes_eq, pos, AllOf,
}
use sensorium.Base.Result.{ok, Ensures, Ensures-ok, Ensures-bind, Ensures-of, Ensures-elim}
use sensorium.Template.I2c
use sensorium.Normalize.Values.{
  Value, null, bool, int, obj, end, Fields, get, or_else, pairs, of_pairs, to_list, of_list,
  expect_mapping, expect_list, expect_bool,
}
use sensorium.Normalize.Expect.{in_bounds, expect_hex_int, expect_bytes}
use sensorium.Normalize.Parts.{
  collect, normalize_i2c_registers, collect_registers, key_width, normalize_bank,
}
use sensorium.Normalize.Items.{TemplateKind, by_template}
use sensorium.Normalize.Export.{
  Entries, entries, number_value, bytes_value, register_value, registers_value, bank_entries,
  backend_entries,
}
use sensorium.Normalize.Restore.Numbers.{
  expect_hex_int_again, expect_hex_int-bounds, expect_hex_int-hex_key,
}
use sensorium.Normalize.Restore.HexBytes.{AllBytes, expect_bytes-bytes_hex}
use sensorium.Normalize.Restore.Dicts.{IsReadBack, collect_again, collect_all_again}
use sensorium.Normalize.Restore.Sorted.{collect_registers_again}

pub to_list-of_list : (vs : List Value) → to_list (of_list vs) ≡ vs
to_list-of_list [] = refl
to_list-of_list (v ∷ vs) = ap (λ (r : List Value). v ∷ r) (to_list-of_list vs)

key_width_pos : (size : ℕ) → 0 < key_width size
key_width_pos size = ground arith

bounds-le : (hi n : ℕ) → in_bounds 0 (some hi) (pos n) ≡ ok n → n ≤ hi
bounds-le hi n h = ground arith

-- the key of a register is read back to it
register_again :
    (size : ℕ) (v : Value) (r : ℕ)
    → size ≤ 262144
    → expect_hex_int 0 (some (size - 1)) v ≡ ok r
    → expect_hex_int 0 (some (size - 1)) (register_value size r) ≡ ok r
register_again size v r small h =
    let fits = expect_hex_int-bounds 0 (some (size - 1)) v r h in
    let le = bounds-le (size - 1) r fits in
    expect_hex_int-hex_key 0 (some (size - 1)) (key_width size) r (key_width_pos size) (omega arith)
      fits

abbrev RegistersAgain : ℕ → List (ℕ × ℕ) → Type 0
RegistersAgain size m = normalize_i2c_registers (size - 1) (registers_value size m) ≡ ok m

registers_again :
    (size : ℕ) (v : Value)
    → size ≤ 262144
    → Ensures (RegistersAgain size) (normalize_i2c_registers (size - 1) v)
unfolding normalize_i2c_registers
registers_again size v small = Ensures-bind (RegistersAgain size) (expect_mapping v) _ (λ fs e0.
    Ensures-of (RegistersAgain size)
      (collect ◌==◌ (expect_hex_int 0 (some (size - 1))) (expect_hex_int 0 (some 255)) []
        (pairs fs))
      (λ m e.
        collect_all_again ◌==◌ (expect_hex_int 0 (some (size - 1))) (expect_hex_int 0 (some 255))
          (register_value size) number_value (pairs fs) m e
          (λ v' r h. register_again size v' r small h)
          (λ v' n h. expect_hex_int_again 0 (some 255) v' n h)))

registers_restored :
    (size : ℕ) (v : Value) (m : List (ℕ × ℕ))
    → size ≤ 262144
    → normalize_i2c_registers (size - 1) v ≡ ok m
    → normalize_i2c_registers (size - 1) (registers_value size m) ≡ ok m
registers_restored size v m small h =
    Ensures-elim (RegistersAgain size) (normalize_i2c_registers (size - 1) v) m
      (registers_again size v small) h

max_bounds : (lo hi n : ℕ) → in_bounds lo (some hi) (pos n) ≡ ok n → n ≤ hi
max_bounds lo hi n h = ground arith

-- the parts of an exported bank
bank_keys :
    (b : I2c.Backend)
    → expect_hex_int 1 (some 262144) (number_value b.size) ≡ ok b.size
    → expect_hex_int 1 (some 2) (number_value b.pointer_width) ≡ ok b.pointer_width
    → normalize_i2c_registers (b.size - 1) (registers_value b.size b.registers) ≡ ok b.registers
    → collect_registers b.size [] (map (register_value b.size) b.clear_on_read) ≡ ok b.clear_on_read
    → collect ◌==◌
        (expect_hex_int 0 (some (b.size - 1)))
        (normalize_i2c_registers (b.size - 1))
        []
        (pairs
          (of_pairs (entries (register_value b.size) (registers_value b.size) b.write_effects)))
      ≡ ok b.write_effects
    → (kind : TemplateKind)
    → normalize_bank (of_pairs (backend_entries (by_template kind) ++ bank_entries b)) ≡ ok b
unfolding normalize_bank
bank_keys b hs hp hr hc he kind =
    rw (hs, hp, hr, to_list-of_list (map (register_value b.size) b.clear_on_read), hc, he) refl

abbrev pub BankAgain : TemplateKind → I2c.Backend → Type 0
BankAgain kind b =
    normalize_bank (of_pairs (backend_entries (by_template kind) ++ bank_entries b)) ≡ ok b

bank_again : (kind : TemplateKind) (fs : Fields) → Ensures (BankAgain kind) (normalize_bank fs)
unfolding normalize_bank
bank_again kind fs =
    Ensures-bind (BankAgain kind)
      (expect_hex_int 1 (some 262144) (or_else (int (pos 256)) (get (codes "size") fs))) _
      (λ size e0.
        Ensures-bind (BankAgain kind)
          (expect_hex_int 1 (some 2) (or_else (int (pos 1)) (get (codes "pointer_width") fs))) _
          (λ width e1.
            Ensures-bind (BankAgain kind)
              (expect_bool (or_else (bool true) (get (codes "auto_increment") fs))) _
              (λ auto e2.
                Ensures-bind (BankAgain kind)
                  (normalize_i2c_registers (size - 1)
                    (or_else (obj end) (get (codes "registers") fs)))
                  _
                  (λ regs e3.
                    Ensures-bind (BankAgain kind)
                      (expect_list (or_else null (get (codes "clear_on_read") fs))) _
                      (λ items e4.
                        Ensures-bind (BankAgain kind) (collect_registers size [] (to_list items)) _
                          (λ clear e5.
                            Ensures-bind (BankAgain kind)
                              (expect_mapping (or_else null (get (codes "write_effects") fs))) _
                              (λ effects e6.
                                Ensures-bind (BankAgain kind)
                                  (collect ◌==◌ (expect_hex_int 0 (some (size - 1)))
                                    (normalize_i2c_registers (size - 1)) [] (pairs effects))
                                  _
                                  (λ writes e7.
                                    let small = max_bounds 1 262144 size (
                                      expect_hex_int-bounds 1 (some 262144)
                                        (or_else (int (pos 256)) (get (codes "size") fs)) size
                                        e0) in
                                    Ensures-ok (BankAgain kind) (
                                      bank_keys
                                        (record {
                                          size = size;
                                          pointer_width = width;
                                          auto_increment = auto;
                                          registers = regs;
                                          clear_on_read = clear;
                                          write_effects = writes;
                                        })
                                        (expect_hex_int_again 1 (some 262144)
                                          (or_else (int (pos 256)) (get (codes "size") fs)) size e0)
                                        (expect_hex_int_again 1 (some 2)
                                          (or_else (int (pos 1)) (get (codes "pointer_width") fs))
                                          width e1)
                                        (registers_restored size
                                          (or_else (obj end) (get (codes "registers") fs)) regs
                                          small e3)
                                        (collect_registers_again size (to_list items) clear e5
                                          (λ v r h. register_again size v r small h))
                                        (collect_all_again ◌==◌ (expect_hex_int 0 (some (size - 1)))
                                          (normalize_i2c_registers (size - 1)) (register_value size)
                                          (registers_value size) (pairs effects) writes e7
                                          (λ v r h. register_again size v r small h)
                                          (λ v m h. registers_restored size v m small h))
                                        kind)))))))))

pub bank_restored :
    (kind : TemplateKind) (fs : Fields) (b : I2c.Backend)
    → normalize_bank fs ≡ ok b
    → BankAgain kind b
bank_restored kind fs b h =
    Ensures-elim (BankAgain kind) (normalize_bank fs) b (bank_again kind fs) h

-- the byte strings of a script are bytes
abbrev pub BytesPairs : List (Bytes × Bytes) → Type 0
BytesPairs = AllOf (λ (p : Bytes × Bytes). AllBytes p.0 × AllBytes p.1)

pairs_read :
    (m : List (Bytes × Bytes))
    → BytesPairs m
    → AllOf (IsReadBack bytes_eq expect_bytes expect_bytes bytes_value bytes_value) m
pairs_read [] h = tt
pairs_read ((k, v) ∷ m) h =
    ((expect_bytes-bytes_hex k h.0.0, expect_bytes-bytes_hex v h.0.1), pairs_read m h.1)

pub byte_pairs_again :
    (kvs : Entries) (m : List (Bytes × Bytes))
    → collect bytes_eq expect_bytes expect_bytes [] kvs ≡ ok m
    → BytesPairs m
    → collect bytes_eq expect_bytes expect_bytes []
        (pairs (of_pairs (entries bytes_value bytes_value m)))
      ≡ ok m
byte_pairs_again kvs m e good =
    collect_again bytes_eq expect_bytes expect_bytes bytes_value bytes_value kvs m e
      (pairs_read m good)
