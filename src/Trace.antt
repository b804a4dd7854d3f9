-- ===== src/Trace.antt =====
-- src/sensorium/runtime/persistence.py, class AsyncTraceWriter: the bounded queue between the
-- requests and the trace file. One function for each critical section of `cond`; the thread's loop is
-- `take`, the write, and `finish`. `size` is `_serialized_size`, the length of a record's JSON line.
pub mod Bounds
pub mod Run
mod Tests
use sensorium.Base.{
  ℕ, ◌+◌, ◌-◌, max, Bool, true, false, ◌||◌, List, [], ◌∷◌, ◌++◌, Option, none, some, if◌then◌else◌,
  ltb, leb, length,
}

abbrev pub total {ℓ} : {A : Type ℓ} → List (A × ℕ) → ℕ
total [] = 0
total ((item, encoded_size) ∷ rest) = encoded_size + total rest

pub record Writer (A : Type 0) : Type 0 where
  pub file_limit_bytes : ℕ
  pub queue_limit_records : ℕ
  pub queue_limit_bytes : ℕ
  pub queue : List (A × ℕ)
  pub queue_bytes : ℕ
  pub pending_writes : ℕ
  pub drop_count : ℕ
  pub max_queue_depth : ℕ
  pub max_queue_bytes : ℕ
  pub stopping : Bool
  -- the lines of the file at `path`
  pub file : List A

pub record Stats : Type 0 where
  pub queue_depth : ℕ
  pub queue_bytes : ℕ
  pub drop_count : ℕ
  pub max_queue_depth : ℕ
  pub max_queue_bytes : ℕ

module _ {A : Type 0} where
  -- `__init__` with a path
  pub init : ℕ → ℕ → ℕ → List A → Writer A
  init file_limit_bytes queue_limit_records queue_limit_bytes file = record {
    file_limit_bytes = max 1024 file_limit_bytes;
    queue_limit_records = max 1 queue_limit_records;
    queue_limit_bytes = max 1024 queue_limit_bytes;
    queue = [];
    queue_bytes = 0;
    pending_writes = 0;
    drop_count = 0;
    max_queue_depth = 0;
    max_queue_bytes = 0;
    stopping = false;
    file = file;
  }

  -- the loop of `enqueue`: what is left of the queue, its bytes, and the records dropped
  pub shrink : ℕ → ℕ → ℕ → List (A × ℕ) → ℕ → ℕ → List (A × ℕ) × ℕ × ℕ
  shrink limit_records limit_bytes encoded_size [] queue_bytes dropped = ([], queue_bytes, dropped)
  shrink limit_records limit_bytes encoded_size ((item, item_size) ∷ rest) queue_bytes dropped =
      let shorter =
        shrink limit_records limit_bytes encoded_size rest (queue_bytes - item_size)
          (dropped + 1) in
      if leb limit_records (length ((item, item_size) ∷ rest))
        || ltb limit_bytes (queue_bytes + encoded_size)
      then shorter
      else ((item, item_size) ∷ rest, queue_bytes, dropped)

  pub stats : Writer A → Stats
  stats w = record {
    queue_depth = length w.queue;
    queue_bytes = w.queue_bytes;
    drop_count = w.drop_count;
    max_queue_depth = w.max_queue_depth;
    max_queue_bytes = w.max_queue_bytes;
  }

  unfoldable pub reset_counters : Writer A → Writer A
  reset_counters w = record w {
    drop_count = 0;
    max_queue_depth = length w.queue;
    max_queue_bytes = w.queue_bytes;
  }

  pub stop : Writer A → Writer A
  stop w = record w { stopping = true }

  -- the first half of a round of `_loop`; `none` where it waits or returns
  pub take : Writer A → Option (A × Writer A)
  take w = elim w.queue [
    | [] ↦ none
    | (item, item_size) ∷ rest ↦ some (
      item,
      record w {
        queue = rest;
        queue_bytes = w.queue_bytes - item_size;
        pending_writes = w.pending_writes + 1;
      },
    )
  ]

  -- the `finally` of a round
  pub finish : Writer A → Writer A
  finish w = record w { pending_writes = w.pending_writes - 1 }

module _ {A : Type 0} (size : A → ℕ) where
  pub enqueue : Writer A → A → Writer A
  unfolding shrink
  enqueue w item =
      let encoded_size = size item in
      let (kept, kept_bytes, dropped) =
        shrink w.queue_limit_records w.queue_limit_bytes encoded_size w.queue w.queue_bytes 0 in
      let queue = kept ++ (item, encoded_size) ∷ [] in
      let queue_bytes = kept_bytes + encoded_size in
      record w {
        queue = queue;
        queue_bytes = queue_bytes;
        drop_count = w.drop_count + dropped;
        max_queue_depth = max w.max_queue_depth (length queue);
        max_queue_bytes = max w.max_queue_bytes queue_bytes;
      }

  abbrev pub file_size : List A → ℕ
  file_size [] = 0
  file_size (item ∷ rest) = size item + file_size rest

  -- `_write_record`: a file that has grown past its limit is rewritten with the daemon's trace
  pub write_record : Writer A → A → List A → Writer A
  write_record w item trace_snapshot =
      let appended = w.file ++ item ∷ [] in
      record w {
        file = if ltb w.file_limit_bytes (file_size appended) then trace_snapshot else appended;
      }
