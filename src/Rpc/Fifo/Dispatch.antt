-- ===== src/Rpc/Fifo/Dispatch.antt =====
-- src/sensorium/runtime/rpc.py: `_dispatch_pending` and the order of the answers.
use sensorium.Base.{
  ℕ, ◌+◌, ◌≡◌, refl, ap, ap₂, ◌∙◌, true, false, List, [], ◌∷◌, ◌++◌, Option, none, some, codes,
  Bytes, Bool-cases, inl, inr, ◌==◌, arith,
}
use sensorium.Base.Result.{Result, Ensures, Ensures-ok, Ensures-bind}
use sensorium.Normalize.Values.{Value, null, get, or_else}
use sensorium.Rpc.{
  Response, busy_response, event_response, Conn, Client, Limits, id_of, with_client, is_waiting,
  request_params, seconds_of, is_next_event, waiter,
}
use sensorium.Rpc.Serve.{
  queue_response, submit, may_dispatch, dispatch, begin_next_event_wait, wait_or_answer,
}
use sensorium.Rpc.Fifo.{IsAnswer, refused, polled, Fifo}
use sensorium.Rpc.Fifo.Moves.{start_job, start_wait, was_idle, queued, add_answer}

module _ (l : Limits) (loads : Bytes → Option Value) (dumps : Response → Bytes)
    (seen : List (Option Value)) (received inbuf : Bytes) where
  -- what `_dispatch_pending` finds where it may take a request
  abbrev FifoOf : Conn → Type 0
  FifoOf c = Fifo dumps l loads c seen received inbuf

  abbrev popped : List Value → Conn → Conn
  popped qs c = with_client (λ x. record x { pending_requests = qs }) c

  abbrev counted : ℕ → ℕ → Conn → Conn
  counted generation total c = record c { busy_generation = generation; busy_total = total }

  answered_next :
      (c : Conn) (q : Value) (qs : List Value) (r : Response) (generation total : ℕ)
      → FifoOf c
      → c.client.active_request ≡ false
      → is_waiting c.client.waiting_for_event ≡ false
      → c.client.pending_requests ≡ q ∷ qs
      → IsAnswer q r
      → FifoOf (queue_response l loads dumps r (counted generation total (popped qs c)))
  answered_next c q qs r generation total f ha hw hp x =
      let (stage, none_left) = was_idle f.stage ha hw in
      add_answer l loads dumps seen received inbuf (counted generation total (popped qs c))
        f.responses f.answered q r f.is_open f.answers f.written x stage
        (f.order ∙ ap₂ (λ ps rest. f.answered ++ (ps ++ rest)) none_left hp) f.socket f.buffer

  submitted :
      (c : Conn) (q : Value) (qs : List Value)
      → FifoOf c
      → c.client.active_request ≡ false
      → is_waiting c.client.waiting_for_event ≡ false
      → c.client.pending_requests ≡ q ∷ qs
      → FifoOf (submit l loads dumps q (popped qs c))
        × ((submit l loads dumps q (popped qs c)).client.pending_requests ≡ qs)
  submitted c q qs f ha hw hp = elim (Bool-cases (c.worker_slots == 0)) [
    | inl e ↦ rw e (
      answered_next c q qs busy_response (c.busy_generation + 1) (c.busy_total + 1) f ha hw hp
          refused,
      ap (λ d. d.client.pending_requests)
          (queued l loads dumps busy_response
            (counted (c.busy_generation + 1) (c.busy_total + 1) (popped qs c)) f.is_open),
    )
    | inr e ↦ rw e (
      record {
        is_open = f.is_open;
        responses = f.responses;
        answered = f.answered;
        in_progress = q ∷ [];
        answers = f.answers;
        written = f.written;
        stage = start_job f.stage ha hw q;
        order = f.order ∙ ap₂ (λ ps rest. f.answered ++ (ps ++ rest)) (was_idle f.stage ha hw).1 hp;
        socket = f.socket;
        buffer = f.buffer;
      },
      refl,
    )
  ]

  module _ (next_event : Value → Result (Option Value)) (timeout : Option Value → Option ℕ)
      (now : ℕ) where
    wait_or_answer-Fifo :
        (c : Conn) (q : Value) (qs : List Value)
        → FifoOf c
        → c.client.active_request ≡ false
        → is_waiting c.client.waiting_for_event ≡ false
        → c.client.pending_requests ≡ q ∷ qs
        → (backend_id : Value) (ticks : ℕ) (event : Option Value)
        → FifoOf (
            wait_or_answer l loads dumps next_event timeout now q backend_id ticks event
              (popped qs c))
    wait_or_answer-Fifo c q qs f ha hw hp backend_id ticks (some event) =
        answered_next c q qs (event_response (id_of q) (some event)) c.busy_generation c.busy_total
          f ha hw hp (polled (some event))
    wait_or_answer-Fifo c q qs f ha hw hp backend_id ticks none = record {
      is_open = f.is_open;
      responses = f.responses;
      answered = f.answered;
      in_progress = q ∷ [];
      answers = f.answers;
      written = f.written;
      stage = start_wait f.stage ha hw (waiter q backend_id (now + ticks));
      order = f.order ∙ ap₂ (λ ps rest. f.answered ++ (ps ++ rest)) (was_idle f.stage ha hw).1 hp;
      socket = f.socket;
      buffer = f.buffer;
    }

    begin_next_event_wait-Fifo :
        (c : Conn) (q : Value) (qs : List Value)
        → FifoOf c
        → c.client.active_request ≡ false
        → is_waiting c.client.waiting_for_event ≡ false
        → c.client.pending_requests ≡ q ∷ qs
        → Ensures FifoOf
            (begin_next_event_wait l loads dumps next_event timeout now q (popped qs c))
    unfolding begin_next_event_wait
    begin_next_event_wait-Fifo c q qs f ha hw hp =
        Ensures-bind FifoOf (request_params q) _ (λ params e0.
          Ensures-bind FifoOf (seconds_of (timeout (get (codes "timeout") params))) _ (λ ticks e1.
            Ensures-bind FifoOf (next_event (or_else null (get (codes "backend_id") params))) _
              (λ event e2. Ensures-ok FifoOf (
                wait_or_answer-Fifo c q qs f ha hw hp
                  (or_else null (get (codes "backend_id") params)) ticks event))))

    may_dispatch_iff :
        (x : Client)
        → may_dispatch l loads dumps next_event timeout now x ≡ true
        → (x.active_request ≡ false) × (is_waiting x.waiting_for_event ≡ false)
    may_dispatch_iff x h = ground arith

    pub dispatch-Fifo :
        (qs : List Value) (c : Conn)
        → c.client.pending_requests ≡ qs
        → FifoOf c
        → Ensures FifoOf (dispatch l loads dumps next_event timeout now qs c)
    unfolding dispatch
    dispatch-Fifo [] c hp f = Ensures-ok FifoOf f
    dispatch-Fifo (q ∷ qs) c hp f =
        elim (Bool-cases (may_dispatch l loads dumps next_event timeout now c.client)) [
          | inr e ↦ rw e (Ensures-ok FifoOf f)
          | inl e ↦
              let (ha, hw) = may_dispatch_iff c.client e in
              let (f', hp') = submitted c q qs f ha hw hp in
              rw e (elim (Bool-cases (is_next_event q)) [
                | inl p ↦ rw p (begin_next_event_wait-Fifo c q qs f ha hw hp)
                | inr p ↦ rw p (dispatch-Fifo qs (submit l loads dumps q (popped qs c)) hp' f')
              ])
        ]
