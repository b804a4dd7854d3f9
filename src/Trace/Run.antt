-- ===== src/Trace/Run.antt =====
-- src/sensorium/runtime/persistence.py, the writer under its threads: requests enqueue and the one writer thread takes, writes and
-- finishes, in any order in which the critical sections can follow one another.
use sensorium.Base.{ℕ, ◌+◌, ◌≡◌, refl, List, Option, none, some, arith, length}
use sensorium.Trace.{Writer, init, take, finish, enqueue, write_record, reset_counters}
use sensorium.Trace.Bounds.{
  IsValid, enqueue-IsValid, enqueue_drops_oldest, init-IsValid, take-IsValid,
}

-- The writer, the record that the thread has taken and not yet finished, and three counts that the
-- program does not keep: of calls of `enqueue`, of finished rounds, and of drops that a reset of the
-- counters has forgotten.
pub record System (A : Type 0) : Type 0 where
  pub writer : Writer A
  pub hand : Option A
  pub accepted : ℕ
  pub finished : ℕ
  pub forgotten : ℕ

abbrev pub held {ℓ} : {A : Type ℓ} → Option A → ℕ
held none = 0
held (some _) = 1

module _ {A : Type 0} (size : A → ℕ) where
  pub data Step : System A → System A → Type 0 where
    put :
        (s : System A) (item : A)
        → Step s (record s { writer = enqueue size s.writer item; accepted = s.accepted + 1 })
    begin :
        (s : System A) (item : A) (w : Writer A)
        → s.hand ≡ none
        → take s.writer ≡ some (item, w)
        → Step s (record s { writer = w; hand = some item })
    written :
        (s : System A) (item : A) (trace_snapshot : List A)
        → s.hand ≡ some item
        → Step s (record s {
          writer = finish (write_record size s.writer item trace_snapshot);
          hand = none;
          finished = s.finished + 1;
        })
    failed :
        (s : System A) (item : A)
        → s.hand ≡ some item
        → Step s (record s { writer = finish s.writer; hand = none; finished = s.finished + 1 })
    reset :
        (s : System A)
        → Step s (record s {
          writer = reset_counters s.writer;
          forgotten = s.forgotten + s.writer.drop_count;
        })

  pub data Reach (s : System A) : System A → Type 0 where
    here : Reach s s
    next : {t u : System A} → Reach s t → Step t u → Reach s u

  -- The bounds of the queue, and that no record is lost uncounted.
  pub record IsSound (s : System A) : Type 0 where
    pub valid : IsValid s.writer
    pub pending : s.writer.pending_writes ≡ held s.hand
    pub accounted :
        s.accepted
        ≡ s.finished + held s.hand + length s.writer.queue + s.writer.drop_count + s.forgotten

  Step-IsSound : {s t : System A} → Step s t → IsSound s → IsSound t
  Step-IsSound (put s item) i =
      let drops = enqueue_drops_oldest size s.writer item i.valid in
      record {
        valid = enqueue-IsValid size s.writer item i.valid;
        pending = unfold enqueue in i.pending;
        accounted = omega arith;
      }
  Step-IsSound (begin s item w e t) i = record {
    valid = take-IsValid s.writer w item i.valid t;
    pending = unfold take in ground arith;
    accounted = unfold take in ground arith;
  }
  Step-IsSound (written s item snap e) i = unfold finish write_record in ground arith
  Step-IsSound (failed s item e) i = unfold finish in ground arith
  Step-IsSound (reset s) i = unfold reset_counters in ground arith

  Reach-IsSound : {s t : System A} → IsSound s → Reach s t → IsSound t
  Reach-IsSound i here = i
  Reach-IsSound i (next r st) = Step-IsSound st (Reach-IsSound i r)

abbrev pub fresh : {A : Type 0} → ℕ → ℕ → ℕ → List A → System A
fresh f r b file = record {
  writer = init f r b file;
  hand = none;
  accepted = 0;
  finished = 0;
  forgotten = 0;
}

-- In every state that the threads can reach from a fresh writer the queue is within its limits, at
-- most one record is being written, and every record that was accepted is finished, in the thread's
-- hand, in the queue, or counted as dropped.
pub writer-IsSound :
    {A : Type 0} (size : A → ℕ) (f r b : ℕ) (file : List A) {t : System A}
    → Reach size (fresh f r b file) t
    → IsSound size t
writer-IsSound size f r b file reach = Reach-IsSound size start reach
  where
    start : IsSound size (fresh f r b file)
    start = record {
      valid = init-IsValid f r b file;
      pending = unfold init in refl;
      accounted = unfold init in refl;
    }
