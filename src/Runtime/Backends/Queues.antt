-- ===== src/Runtime/Backends/Queues.antt =====
-- src/sensorium/runtime/backends.py and bridge.py: the order in which a backend polls its events.
use sensorium.Base.{
  ◌≡◌, refl, sym, ap, ◌∙◌, List-cases, inl, inr, List, [], ◌∷◌, ◌++◌, append-nil, append_assoc,
  Option, none, some, Text, insert, bytes_eq, bytes_eq_refl, lookup-insert_self,
}
use sensorium.Runtime.{Runtime, Event}
use sensorium.Runtime.Backends.{queue_of, with_queue, poll_next_event}
use sensorium.Runtime.Dispatch.{enqueue_event}

-- what happens to the queue of one backend
pub data QueueOp : Type 0 where
  push : Event → QueueOp
  take_next : QueueOp

abbrev pub pushed : List QueueOp → List Event
pushed [] = []
pushed (push e ∷ ops) = e ∷ pushed ops
pushed (take_next ∷ ops) = pushed ops

abbrev pub to_list : Option Event → List Event
to_list none = []
to_list (some e) = e ∷ []

-- the operations one by one: what was polled, and the state that is left
pub run_queue : Text → List QueueOp → Runtime → List Event × Runtime
run_queue b [] rt = ([], rt)
run_queue b (push e ∷ ops) rt = run_queue b ops (enqueue_event b e rt)
run_queue b (take_next ∷ ops) rt =
    let (e, rt') = poll_next_event b rt in
    let (es, last) = run_queue b ops rt' in (to_list e ++ es, last)

queue-insert :
    (b : Text) (q : List Event) (rt : Runtime)
    → queue_of b (record rt { backend_queues = insert bytes_eq b q rt.backend_queues }) ≡ q
queue-insert b q rt =
    let found = lookup-insert_self bytes_eq b q rt.backend_queues (bytes_eq_refl b) in
    rw (found, queue_of) refl

queue-enqueue :
    (b : Text) (e : Event) (rt : Runtime)
    → queue_of b (enqueue_event b e rt) ≡ queue_of b rt ++ e ∷ []
unfolding enqueue_event
queue-enqueue b e rt = queue-insert b (queue_of b rt ++ e ∷ []) rt

queue-poll :
    (b : Text) (rt : Runtime)
    → let (e, rt') = poll_next_event b rt in to_list e ++ queue_of b rt' ≡ queue_of b rt
unfolding poll_next_event with_queue
queue-poll b rt = elim (List-cases (queue_of b rt)) [
  | inl h ↦ rw (h, poll_next_event) (queue-insert b (queue_of b rt) rt ∙ h)
  | inr (e, rest, h) ↦ rw (h, poll_next_event) (ap (λ q. e ∷ q) (queue-insert b rest rt))
]

-- Whatever the order in which requests are queued for a backend and the backend polls, the events that
-- it was given, and those still queued behind them, are the events that were queued, in their order:
-- none is lost, given twice or overtaken.
pub run_queue_lem :
    (b : Text) (ops : List QueueOp) (rt : Runtime)
    → let (polled, rt') = run_queue b ops rt in
      polled ++ queue_of b rt' ≡ queue_of b rt ++ pushed ops
unfolding run_queue
run_queue_lem b [] rt = sym (append-nil (queue_of b rt))
run_queue_lem b (push e ∷ ops) rt =
    run_queue_lem b ops (enqueue_event b e rt)
    ∙ ap (λ q. q ++ pushed ops) (queue-enqueue b e rt)
    ∙ append_assoc (queue_of b rt) (e ∷ []) (pushed ops)
run_queue_lem b (take_next ∷ ops) rt =
    let (e, rt') = poll_next_event b rt in
    let (es, last) = run_queue b ops rt' in
    append_assoc (to_list e) es (queue_of b last)
    ∙ ap (λ q. to_list e ++ q) (run_queue_lem b ops rt')
    ∙ sym (append_assoc (to_list e) (queue_of b rt') (pushed ops))
    ∙ ap (λ q. q ++ pushed ops) (queue-poll b rt)
