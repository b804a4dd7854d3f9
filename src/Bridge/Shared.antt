-- ===== src/Bridge/Shared.antt =====
-- src/sensorium/runtime/bridge_protocol.py: the shared memory of the bridge: bytes by offset, and what a write leaves of a read.
use Prim.Native.Nat.{◌*◌}
use sensorium.Base.{
  ℕ, zero, suc, ◌+◌, ◌-◌, ◌≤◌, ◌<◌, ◌%◌, ◌^◌, ◌≡◌, refl, ap, ap₂, ◌∙◌, ◌⊎◌, ◌&&◌, [], ◌∷◌, arith,
  ltb, leb, if◌then◌else◌, Bytes, length, get_or, le, to_le, length-to_le, le-to_le_4, append-nil,
}

abbrev pub Memory : Type 0
Memory = ℕ → ℕ

unfoldable pub peek : Memory → ℕ → ℕ → Bytes
peek m offset zero = []
peek m offset (suc n) = m offset ∷ peek m (offset + 1) n

unfoldable pub poke : Memory → ℕ → Bytes → Memory
poke m offset bs i =
    if leb offset i && ltb i (offset + length bs) then get_or bs (i - offset) 0 else m i

pub length-peek : (m : Memory) (o n : ℕ) → length (peek m o n) ≡ n
unfolding peek
length-peek m o zero = refl
length-peek m o (suc n) = ap suc (length-peek m (o + 1) n)

peek_eq :
    (m m' : Memory) (o n : ℕ)
    → ((i : ℕ) → o ≤ i → i < o + n → m i ≡ m' i)
    → peek m o n ≡ peek m' o n
unfolding peek
peek_eq m m' o zero h = refl
peek_eq m m' o (suc n) h =
    ap₂ ◌∷◌ (h o (omega arith) (omega arith))
      (peek_eq m m' (o + 1) n (λ i p q. h i (omega arith) (omega arith)))

-- a read beside a write
pub peek-poke_ne :
    (m : Memory) (o : ℕ) (bs : Bytes) (o' n : ℕ)
    → (o' + n ≤ o) ⊎ (o + length bs ≤ o')
    → peek (poke m o bs) o' n ≡ peek m o' n
unfolding poke
peek-poke_ne m o bs o' n h = peek_eq (poke m o bs) m o' n (λ i p q. ground arith)

-- an empty write
pub peek-poke_empty :
    (m : Memory) (o : ℕ) (bs : Bytes) (o' n : ℕ)
    → length bs ≡ 0
    → peek (poke m o bs) o' n ≡ peek m o' n
unfolding poke
peek-poke_empty m o bs o' n h = peek_eq (poke m o bs) m o' n (λ i p q. ground arith)

peek_of :
    (m : Memory) (o : ℕ) (bs : Bytes)
    → ((k : ℕ) → k < length bs → m (o + k) ≡ get_or bs k 0)
    → peek m o (length bs) ≡ bs
unfolding peek
peek_of m o [] h = refl
peek_of m o (b ∷ bs) h =
    ap₂ ◌∷◌ (ap m (omega arith) ∙ h 0 (omega arith))
      (peek_of m (o + 1) bs (λ k p. ap m (omega arith) ∙ h (suc k) (omega arith)))

-- a read of what was written
pub peek-poke_self : (m : Memory) (o : ℕ) (bs : Bytes) → peek (poke m o bs) o (length bs) ≡ bs
unfolding poke
peek-poke_self m o bs =
    peek_of (poke m o bs) o bs
      (λ k p. let e : o + k - o ≡ k = omega arith in ground (arith, ap (λ i. get_or bs i 0) e))

-- a 32-bit word of the control page, by its index
abbrev pub word : Memory → ℕ → ℕ
word m index = le 4 (peek m (index * 4) 4)

abbrev pub set_word : Memory → ℕ → ℕ → Memory
set_word m index value = poke m (index * 4) (to_le 4 (value % 2 ^ 32))

pub word-set_word_self :
    (m : Memory) (index value : ℕ) → word (set_word m index value) index ≡ value % 2 ^ 32
word-set_word_self m index value =
    let bs = to_le 4 (value % 2 ^ 32) in
    let read = rw (length-to_le 4 (value % 2 ^ 32)) at (peek-poke_self m (index * 4) bs) in
    let whole : le 4 bs ≡ value % 2 ^ 32 =
      rw append-nil at (le-to_le_4 (value % 2 ^ 32) [] (omega arith)) in
    ap (le 4) read ∙ whole

-- a write elsewhere leaves the word
pub word-poke_ne :
    (m : Memory) (o : ℕ) (bs : Bytes) (index : ℕ)
    → (index * 4 + 4 ≤ o) ⊎ (o + length bs ≤ index * 4)
    → word (poke m o bs) index ≡ word m index
word-poke_ne m o bs index h = ap (le 4) (peek-poke_ne m o bs (index * 4) 4 h)

pub word-set_word_ne :
    (m : Memory) (i value j : ℕ) → (i < j) ⊎ (j < i) → word (set_word m i value) j ≡ word m j
word-set_word_ne m i value j h =
    word-poke_ne m (i * 4) (to_le 4 (value % 2 ^ 32)) j
      (omega (arith, length-to_le 4 (value % 2 ^ 32)))

-- a read behind the control page does not see a write of a word
pub peek-set_word :
    (m : Memory) (i value o n : ℕ) → i * 4 + 4 ≤ o → peek (set_word m i value) o n ≡ peek m o n
peek-set_word m i value o n h =
    peek-poke_ne m (i * 4) (to_le 4 (value % 2 ^ 32)) o n
      (omega (arith, length-to_le 4 (value % 2 ^ 32)))
