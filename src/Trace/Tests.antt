-- ===== src/Trace/Tests.antt =====
-- The trace writer at concrete inputs; a record is its own size.
use sensorium.Base.{ℕ, ◌+◌, ◌-◌, ◌≤◌, ◌≡◌, refl, [], ◌∷◌, ◌++◌, arith, length, none, drop, false}
use sensorium.Trace.{Writer, init, enqueue, write_record}
use sensorium.Trace.Bounds.{IsValid, enqueue_drops_oldest}
use sensorium.Trace.Run.{System, Step, Reach, IsSound, fresh, writer-IsSound}

abbrev self : ℕ → ℕ
self n = n

abbrev full : Writer ℕ
full = record {
  file_limit_bytes = 1024;
  queue_limit_records = 3;
  queue_limit_bytes = 1024;
  queue = (500, 500) ∷ (400, 400) ∷ [];
  queue_bytes = 900;
  pending_writes = 0;
  drop_count = 0;
  max_queue_depth = 2;
  max_queue_bytes = 900;
  stopping = false;
  file = [];
}

full_runs : (enqueue self full 600).queue ≡ (400, 400) ∷ (600, 600) ∷ []
unfolding enqueue
full_runs = refl

file_rewritten : (write_record self (record full { file = 1000 ∷ [] }) 500 (7 ∷ [])).file ≡ 7 ∷ []
unfolding write_record
file_rewritten = refl

full-IsValid : IsValid full
full-IsValid = omega arith

enqueue_drops_oldest_example :
    let w' = enqueue self full 600 in
    let dropped = w'.drop_count - 0 in
    (w'.queue ≡ drop dropped ((500, 500) ∷ (400, 400) ∷ []) ++ (600, 600) ∷ [])
    × (dropped + length w'.queue ≡ 2 + 1)
    × (0 ≤ w'.drop_count)
enqueue_drops_oldest_example = enqueue_drops_oldest self full 600 full-IsValid

abbrev after_put : System ℕ
after_put = record {
  writer = enqueue self (init 0 3 0 []) 5;
  hand = none;
  accepted = 0 + 1;
  finished = 0;
  forgotten = 0;
}

abbrev one_put : Reach self (fresh 0 3 0 []) after_put
one_put = Reach.next Reach.here (Step.put (fresh 0 3 0 []) 5)

writer-IsSound_example : IsSound self after_put
writer-IsSound_example = writer-IsSound self 0 3 0 [] one_put
