-- ===== src/Trace/Bounds.antt =====
-- src/sensorium/runtime/persistence.py: the limits of the queue, and what `enqueue` drops.
use sensorium.Base.{
  ℕ, suc, ◌+◌, ◌-◌, ◌≤◌, ◌<◌, ◌≡◌, ap, ◌∙◌, sym, ◌⊎◌, inl, inr, ◌||◌, List, [], ◌∷◌, ◌++◌, some,
  arith, ltb, leb, Bool-cases, length, length-append, drop,
}
use sensorium.Trace.{Writer, total, shrink, init, enqueue, take}

total-append {ℓ} : {A : Type ℓ} (xs ys : List (A × ℕ)) → total (xs ++ ys) ≡ total xs + total ys
total-append [] ys = omega arith
total-append ((a, n) ∷ xs) ys = omega (arith, total-append xs ys)

-- The queue's bytes are counted, its records are within the limit, and so are its bytes unless it
-- holds one record only; the high-water marks are above what is there.
pub record IsValid {A : Type 0} (w : Writer A) : Type 0 where
  pub counted : w.queue_bytes ≡ total w.queue
  pub some_records : 0 < w.queue_limit_records
  pub within_records : length w.queue ≤ w.queue_limit_records
  pub within_bytes : (w.queue_bytes ≤ w.queue_limit_bytes) ⊎ (length w.queue ≤ 1)
  pub depth_marked : length w.queue ≤ w.max_queue_depth
  pub bytes_marked : w.queue_bytes ≤ w.max_queue_bytes

-- what the loop leaves
record Shrunk {A : Type 0} (limit_records limit_bytes encoded_size : ℕ) (queue : List (A × ℕ))
    (dropped : ℕ) (out : List (A × ℕ) × ℕ × ℕ) : Type 0 where
  counted : out.1 ≡ total out.0
  room : length out.0 < limit_records
  fits : (out.1 + encoded_size ≤ limit_bytes) ⊎ (length out.0 ≡ 0)
  few : length out.0 ≤ length queue
  tally : out.2 + length out.0 ≡ dropped + length queue
  oldest : out.0 ≡ drop (length queue - length out.0) queue

drop-suc_sub {ℓ} :
    {A : Type ℓ} (n k : ℕ) (x : A) (xs : List A)
    → k ≤ n
    → drop (suc n - k) (x ∷ xs) ≡ drop (n - k) xs
drop-suc_sub n k x xs h = let e : suc n - k ≡ suc (n - k) = omega arith in rw e

drop-zero_sub {ℓ} : {A : Type ℓ} (n : ℕ) (xs : List A) → xs ≡ drop (n - n) xs
drop-zero_sub n xs = let e : n - n ≡ 0 = omega arith in rw e

shrink-Shrunk :
    {A : Type 0} (lr lb n : ℕ) (queue : List (A × ℕ)) (bytes dropped : ℕ)
    → 0 < lr
    → bytes ≡ total queue
    → Shrunk lr lb n queue dropped (shrink lr lb n queue bytes dropped)
unfolding shrink
shrink-Shrunk lr lb n [] bytes dropped h e = ground arith
shrink-Shrunk {A} lr lb n ((a, m) ∷ rest) bytes dropped h e =
    elim (Bool-cases (leb lr (length {A = A × ℕ} ((a, m) ∷ rest)) || ltb lb (bytes + n))) [
      | inl full ↦
          let ih = shrink-Shrunk lr lb n rest (bytes - m) (dropped + 1) h (omega arith) in
          rw full (record {
            counted = ih.counted;
            room = ih.room;
            fits = ih.fits;
            few = omega arith;
            tally = omega arith;
            oldest =
                ih.oldest
                ∙ sym (
                    drop-suc_sub (length rest)
                      (length (shrink lr lb n rest (bytes - m) (dropped + 1)).0) (a, m) rest
                      ih.few);
          })
      | inr fits ↦ rw fits (record {
        counted = e;
        room = ground arith;
        fits = ground arith;
        few = omega arith;
        tally = omega arith;
        oldest = drop-zero_sub (suc (length rest)) ((a, m) ∷ rest);
      })
    ]

module _ {A : Type 0} (size : A → ℕ) where
  abbrev kept : Writer A → A → List (A × ℕ) × ℕ × ℕ
  kept w item = shrink w.queue_limit_records w.queue_limit_bytes (size item) w.queue w.queue_bytes 0

  kept-Shrunk :
      (w : Writer A) (item : A)
      → IsValid w
      → Shrunk w.queue_limit_records w.queue_limit_bytes (size item) w.queue 0 (kept w item)
  kept-Shrunk w item v =
      shrink-Shrunk w.queue_limit_records w.queue_limit_bytes (size item) w.queue w.queue_bytes 0
        v.some_records v.counted

  -- `enqueue` keeps the queue within its limits, whatever the size of the record.
  pub enqueue-IsValid : (w : Writer A) (item : A) → IsValid w → IsValid (enqueue size w item)
  unfolding enqueue
  enqueue-IsValid w item v =
      let k = kept-Shrunk w item v in
      let n = length-append (kept w item).0 ((item, size item) ∷ []) in
      let t = total-append (kept w item).0 ((item, size item) ∷ []) in
      record {
        counted = omega arith;
        some_records = v.some_records;
        within_records = omega arith;
        within_bytes = ground arith;
        depth_marked = omega arith;
        bytes_marked = omega arith;
      }

  -- The new queue is the newest records of the old one, with the new record behind them; the drop
  -- count grows by the number of records that were left out.
  pub enqueue_drops_oldest :
      (w : Writer A) (item : A)
      → IsValid w
      → let w' = enqueue size w item in
        let dropped = w'.drop_count - w.drop_count in
        (w'.queue ≡ drop dropped w.queue ++ (item, size item) ∷ [])
        × (dropped + length w'.queue ≡ length w.queue + 1)
        × (w.drop_count ≤ w'.drop_count)
  unfolding enqueue
  enqueue_drops_oldest w item v =
      let k = kept-Shrunk w item v in
      let n = length-append (kept w item).0 ((item, size item) ∷ []) in
      let e : length w.queue - length (kept w item).0
          ≡ w.drop_count + (kept w item).2 - w.drop_count =
        omega arith in
      (
        rw (← e) (ap (λ (q : List (A × ℕ)). q ++ (item, size item) ∷ []) k.oldest),
        omega arith,
        omega arith,
      )

module _ {A : Type 0} where
  pub init-IsValid : (f r b : ℕ) (file : List A) → IsValid (init f r b file)
  unfolding init
  init-IsValid f r b file = ground arith

  pub take-IsValid :
      (w w' : Writer A) (item : A) → IsValid w → take w ≡ some (item, w') → IsValid w'
  unfolding take
  take-IsValid w w' item v h = ground arith
