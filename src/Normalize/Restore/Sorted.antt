-- ===== src/Normalize/Restore/Sorted.antt =====
-- src/sensorium/runtime/model_normalize.py, `sorted(set(clear_on_read))`, over its own result.
use sensorium.Base.{
  ℕ, ◌-◌, ◌≡◌, refl, ap, sym, ◌∙◌, arith, true, false, Bool-cases, inl, inr, List, [], ◌∷◌, ◌++◌,
  map, append-nil, append_assoc, some, Text, bytes_eq, AllOf, AllOf-map, AllOf-concat,
}
use sensorium.Base.Result.{Result, ok, Ensures, Ensures-ok, Ensures-bind, Ensures-elim}
use sensorium.Normalize.Values.{Value}
use sensorium.Normalize.Words.{hex_key}
use sensorium.Normalize.Expect.{expect_hex_int}
use sensorium.Normalize.Parts.{text_lt, add_sorted, key_width, collect_registers}

text_lt_trans : (a b c : Text) → text_lt a b ≡ true → text_lt b c ≡ true → text_lt a c ≡ true
text_lt_trans [] (y ∷ b) (z ∷ c) p q = refl
text_lt_trans [] [] c p q = cc
text_lt_trans [] (y ∷ b) [] p q = cc
text_lt_trans (x ∷ a) [] c p q = cc
text_lt_trans (x ∷ a) (y ∷ b) [] p q = cc
text_lt_trans (x ∷ a) (y ∷ b) (z ∷ c) p q = ground (arith, text_lt_trans a b c)

text_lt_asymm : (a b : Text) → text_lt a b ≡ true → text_lt b a ≡ false
text_lt_asymm [] [] p = cc
text_lt_asymm [] (y ∷ b) p = refl
text_lt_asymm (x ∷ a) [] p = cc
text_lt_asymm (x ∷ a) (y ∷ b) p = ground (arith, text_lt_asymm a b)

text_lt-ne : (a b : Text) → text_lt a b ≡ true → bytes_eq b a ≡ false
text_lt-ne [] [] p = cc
text_lt-ne [] (y ∷ b) p = refl
text_lt-ne (x ∷ a) [] p = cc
text_lt-ne (x ∷ a) (y ∷ b) p = ground (arith, text_lt-ne a b)

text_lt_total : (a b : Text) → text_lt a b ≡ false → bytes_eq a b ≡ false → text_lt b a ≡ true
text_lt_total [] [] p q = cc
text_lt_total [] (y ∷ b) p q = cc
text_lt_total (x ∷ a) [] p q = refl
text_lt_total (x ∷ a) (y ∷ b) p q = ground (arith, text_lt_total a b)

module _ (key : ℕ → Text) where
  abbrev Before : ℕ → ℕ → Type 0
  Before m n = text_lt (key m) (key n) ≡ true

  -- ascending behind a number
  abbrev Chain : ℕ → List ℕ → Type 0
  Chain n [] = Unit
  Chain n (m ∷ ms) = Before n m × Chain m ms

  abbrev pub Ascending : List ℕ → Type 0
  Ascending [] = Unit
  Ascending (m ∷ ms) = Chain m ms

  add_sorted-Chain :
      (low n : ℕ) (ms : List ℕ) → Before low n → Chain low ms → Chain low (add_sorted key n ms)
  unfolding add_sorted
  add_sorted-Chain low n [] b h = (b, tt)
  add_sorted-Chain low n (m ∷ ms) b h = elim (Bool-cases (text_lt (key n) (key m))) [
    | inl less ↦ rw less (b, (less, h.1))
    | inr more ↦ elim (Bool-cases (bytes_eq (key n) (key m))) [
      | inl same ↦ rw (more, same) h
      | inr other ↦
          rw (more, other)
            (h.0, add_sorted-Chain m n ms (text_lt_total (key n) (key m) more other) h.1)
    ]
  ]

  add_sorted-Ascending : (n : ℕ) (ms : List ℕ) → Ascending ms → Ascending (add_sorted key n ms)
  unfolding add_sorted
  add_sorted-Ascending n [] h = tt
  add_sorted-Ascending n (m ∷ ms) h = elim (Bool-cases (text_lt (key n) (key m))) [
    | inl less ↦ rw less (less, h)
    | inr more ↦ elim (Bool-cases (bytes_eq (key n) (key m))) [
      | inl same ↦ rw (more, same) h
      | inr other ↦
          rw (more, other) (add_sorted-Chain m n ms (text_lt_total (key n) (key m) more other) h)
    ]
  ]

  -- a number behind all others goes to the end
  add_sorted-end :
      (n : ℕ) (ms : List ℕ) → AllOf (λ m. Before m n) ms → add_sorted key n ms ≡ ms ++ n ∷ []
  unfolding add_sorted
  add_sorted-end n [] h = refl
  add_sorted-end n (m ∷ ms) h =
      rw (text_lt_asymm (key m) (key n) h.0, text_lt-ne (key m) (key n) h.0)
        (ap (λ (r : List ℕ). m ∷ r) (add_sorted-end n ms h.1))

  AllOf-add_sorted :
      (P : ℕ → Type 0) (n : ℕ) (ms : List ℕ) → P n → AllOf P ms → AllOf P (add_sorted key n ms)
  unfolding add_sorted
  AllOf-add_sorted P n [] p h = (p, tt)
  AllOf-add_sorted P n (m ∷ ms) p h = elim (Bool-cases (text_lt (key n) (key m))) [
    | inl less ↦ rw less (p, h)
    | inr more ↦ elim (Bool-cases (bytes_eq (key n) (key m))) [
      | inl same ↦ rw (more, same) h
      | inr other ↦ rw (more, other) (h.0, AllOf-add_sorted P n ms p h.1)
    ]
  ]

abbrev register_key : ℕ → ℕ → Text
register_key size = hex_key (key_width size)

abbrev read_register : ℕ → Value → Result ℕ
read_register size = expect_hex_int 0 (some (size - 1))

collect_registers-Ascending :
    (size : ℕ) (acc : List ℕ) (vs : List Value)
    → Ascending (register_key size) acc
    → Ensures (Ascending (register_key size)) (collect_registers size acc vs)
unfolding collect_registers
collect_registers-Ascending size acc [] h = Ensures-ok (Ascending (register_key size)) h
collect_registers-Ascending size acc (v ∷ vs) h =
    Ensures-bind (Ascending (register_key size)) (read_register size v) _ (λ r e.
      collect_registers-Ascending size (add_sorted (register_key size) r acc) vs
        (add_sorted-Ascending (register_key size) r acc h))

collect_registers-AllOf :
    (P : ℕ → Type 0) (size : ℕ) (acc : List ℕ) (vs : List Value)
    → ((v : Value) (r : ℕ) → read_register size v ≡ ok r → P r)
    → AllOf P acc
    → Ensures (AllOf P) (collect_registers size acc vs)
unfolding collect_registers
collect_registers-AllOf P size acc [] p h = Ensures-ok (AllOf P) h
collect_registers-AllOf P size acc (v ∷ vs) p h =
    Ensures-bind (AllOf P) (read_register size v) _ (λ r e.
      collect_registers-AllOf P size (add_sorted (register_key size) r acc) vs p
        (AllOf-add_sorted (register_key size) P r acc (p v r e) h))

abbrev IsRead : ℕ → ℕ → Type 0
IsRead size r = read_register size (Value.str (register_key size r)) ≡ ok r

collect_ascending :
    (size : ℕ) (acc ms : List ℕ) (n : ℕ)
    → AllOf (λ m. Before (register_key size) m n) acc
    → Chain (register_key size) n ms
    → AllOf (IsRead size) ms
    → collect_registers size (acc ++ n ∷ []) (map (λ r. Value.str (register_key size r)) ms)
      ≡ ok ((acc ++ n ∷ []) ++ ms)
unfolding collect_registers
collect_ascending size acc [] n below c h = ap ok (sym (append-nil (acc ++ n ∷ [])))
collect_ascending size acc (m ∷ ms) n below c h =
    let below' =
      AllOf-concat (λ x. Before (register_key size) x m) acc n
        (AllOf-map (λ x. Before (register_key size) x n) (λ x. Before (register_key size) x m) acc
          (λ x p.
            text_lt_trans (register_key size x) (register_key size n) (register_key size m) p c.0)
          below)
        c.0 in
    rw (h.0, add_sorted-end (register_key size) m (acc ++ n ∷ []) below')
      (collect_ascending size (acc ++ n ∷ []) ms m below' c.1 h.1
        ∙ ap ok (append_assoc (acc ++ n ∷ []) (m ∷ []) ms))

from_Ascending :
    (size : ℕ) (ms : List ℕ)
    → Ascending (register_key size) ms
    → AllOf (IsRead size) ms
    → collect_registers size [] (map (λ r. Value.str (register_key size r)) ms) ≡ ok ms
unfolding collect_registers add_sorted
from_Ascending size [] c h = refl
from_Ascending size (m ∷ ms) c h = rw h.0 (collect_ascending size [] ms m tt c h.1)

-- the loop over its own result
pub collect_registers_again :
    (size : ℕ) (vs : List Value) (ms : List ℕ)
    → collect_registers size [] vs ≡ ok ms
    → ((v : Value) (r : ℕ) → read_register size v ≡ ok r → IsRead size r)
    → collect_registers size [] (map (λ r. Value.str (register_key size r)) ms) ≡ ok ms
collect_registers_again size vs ms e p =
    from_Ascending size ms
      (Ensures-elim (Ascending (register_key size)) (collect_registers size [] vs) ms
        (collect_registers-Ascending size [] vs tt) e)
      (Ensures-elim (AllOf (IsRead size)) (collect_registers size [] vs) ms
        (collect_registers-AllOf (IsRead size) size [] vs p tt) e)
