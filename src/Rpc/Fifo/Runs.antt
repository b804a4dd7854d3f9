-- ===== src/Rpc/Fifo/Runs.antt =====
-- src/sensorium/runtime/rpc.py: every run of a connection answers its requests in their order.
use sensorium.Base.{
  ℕ, ◌≡◌, refl, sym, ap, ◌∙◌, true, false, ◌||◌, List, [], ◌∷◌, ◌++◌, Option, none, some, Bytes,
  append_assoc, take, drop, take-append-drop, inl, inr, if-both, ◌==◌, length, leb,
}
use sensorium.Base.Result.{Result, ok, raise, Ensures, Ensures-ok, Ensures-bind, Ensures-elim}
use sensorium.Normalize.Values.{Value}
use sensorium.Rpc.{
  Response, event_response, Conn, Limits, Waiter, id_of, with_client, Sending, taken, would_block,
  failed, accept_client,
}
use sensorium.Rpc.Serve.{
  drain_completion, service_event_waiter, service_waiter, service_waiting, event_due, flush_writes,
  run_request, response_of,
}
use sensorium.Rpc.Steps.{
  Step, received, hung_up, written, finished, drained, waited, others, Reaches, stay, onward,
}
use sensorium.Rpc.Lines.{lines_from, last_line}
use sensorium.Rpc.Fifo
use sensorium.Rpc.Fifo.{IsAnswer, returned, polled, no_answer, idle, Fifo}
use sensorium.Rpc.Fifo.Moves.{end_job, take_answer, end_wait, add_answer}
use sensorium.Rpc.Fifo.Reading.{close_client-closed}
use sensorium.Rpc.Fifo.Chunks.{InOrder, IsOrdered, dispatch_pending-Ordered, service_read-Ordered}
use sensorium.Rpc.Fifo.Shut.{step-Shut}

answer_of : (q : Value) (result : Result Value) → IsAnswer q (response_of q result)
answer_of q (ok v) = returned v
answer_of q (raise e) = Fifo.failed

module _ (l : Limits) (loads : Bytes → Option Value) (dumps : Response → Bytes) where
  abbrev Ordered : Conn → Type 0
  Ordered = IsOrdered l loads dumps

  flush_writes-Ordered :
      (s : Sending) (c : Conn) → InOrder l loads dumps c → Ordered (flush_writes s c)
  unfolding flush_writes
  flush_writes-Ordered would_block c o = inr o
  flush_writes-Ordered failed c o =
      if-both Ordered (c.client.closed || length c.client.outbuf == 0) _ _ (λ _. inr o)
        (λ _. inl (close_client-closed c))
  flush_writes-Ordered (taken n) c o =
      if-both Ordered c.client.closed _ _ (λ _. inr o)
        (λ _. inr (record {
          received = o.received;
          fifo = record {
            is_open = o.fifo.is_open;
            responses = o.fifo.responses;
            answered = o.fifo.answered;
            in_progress = o.fifo.in_progress;
            answers = o.fifo.answers;
            written =
                append_assoc c.client.sock.sent (take n c.client.outbuf) (drop n c.client.outbuf)
                ∙ ap (λ t. c.client.sock.sent ++ t) (take-append-drop n c.client.outbuf)
                ∙ o.fifo.written;
            stage = o.fifo.stage;
            order = o.fifo.order;
            socket = o.fifo.socket;
            buffer = o.fifo.buffer;
          };
        }))

  run_request-Ordered :
      (q : Value) (rest : List Value) (result : Result Value) (c : Conn)
      → c.jobs ≡ q ∷ rest
      → InOrder l loads dumps c
      → InOrder l loads dumps (run_request q rest result c)
  unfolding run_request
  run_request-Ordered q rest result c h o = record {
    received = o.received;
    fifo = record {
      is_open = o.fifo.is_open;
      responses = o.fifo.responses;
      answered = o.fifo.answered;
      in_progress = o.fifo.in_progress;
      answers = o.fifo.answers;
      written = o.fifo.written;
      stage = end_job o.fifo.stage q rest (response_of q result) h (answer_of q result);
      order = o.fifo.order;
      socket = o.fifo.socket;
      buffer = o.fifo.buffer;
    };
  }

  others-Ordered :
      (slots generation total clients : ℕ) (c : Conn)
      → InOrder l loads dumps c
      → InOrder l loads dumps (record c {
        worker_slots = slots;
        busy_generation = generation;
        busy_total = total;
        active_clients = clients;
      })
  others-Ordered slots generation total clients c o = record {
    received = o.received;
    fifo = record {
      is_open = o.fifo.is_open;
      responses = o.fifo.responses;
      answered = o.fifo.answered;
      in_progress = o.fifo.in_progress;
      answers = o.fifo.answers;
      written = o.fifo.written;
      stage = o.fifo.stage;
      order = o.fifo.order;
      socket = o.fifo.socket;
      buffer = o.fifo.buffer;
    };
  }

  module _ (timeout : Option Value → Option ℕ) (next_event : Value → Result (Option Value))
      (now : ℕ) where
    drain_completion-Ordered :
        (r : Response) (rs : List Response) (c : Conn)
        → c.completions ≡ r ∷ rs
        → InOrder l loads dumps c
        → Ensures Ordered (
            drain_completion l loads dumps next_event timeout now r (record c { completions = rs }))
    unfolding drain_completion
    drain_completion-Ordered r rs c h o =
        let f = o.fifo in
        let (q, one, x, stage) = take_answer f.stage r rs h in
        if-both (Ensures Ordered) c.client.closed _ _ (λ shut. Ensures-ok Ordered (inl shut))
          (λ still. dispatch_pending-Ordered l loads dumps next_event timeout now o.received _ (
            add_answer l loads dumps (lines_from loads [] o.received) o.received
              (last_line loads [] o.received)
              (with_client (λ y. record y { active_request = false })
                (record c { completions = rs }))
              f.responses f.answered q r f.is_open f.answers f.written x stage
              (f.order ∙ ap (λ ps. f.answered ++ (ps ++ c.client.pending_requests)) one) f.socket
              f.buffer))

    service_waiter-Ordered :
        (w : Waiter) (c : Conn)
        → c.client.waiting_for_event ≡ some w
        → InOrder l loads dumps c
        → Ensures Ordered (service_waiter l loads dumps next_event timeout now w c)
    service_waiter-Ordered w c h o =
        let f = o.fifo in
        let (one, stage) = end_wait f.stage w h in
        Ensures-bind Ordered (next_event w.backend_id) _ (λ event e.
          if-both (Ensures Ordered)
            (event_due l loads dumps next_event timeout now w.deadline event) _ _
            (λ due. dispatch_pending-Ordered l loads dumps next_event timeout now o.received _ (
              add_answer l loads dumps (lines_from loads [] o.received) o.received
                (last_line loads [] o.received)
                (with_client (λ y. record y { waiting_for_event = none }) c) f.responses f.answered
                w.request (event_response (id_of w.request) event) f.is_open f.answers f.written
                (polled event) stage
                (f.order ∙ ap (λ ps. f.answered ++ (ps ++ c.client.pending_requests)) one) f.socket
                f.buffer))
            (λ early. Ensures-ok Ordered (inr o)))

    service_waiting-Ordered :
        (w : Option Waiter) (c : Conn)
        → c.client.waiting_for_event ≡ w
        → InOrder l loads dumps c
        → Ensures Ordered (service_waiting l loads dumps next_event timeout now w c)
    service_waiting-Ordered none c h o = Ensures-ok Ordered (inr o)
    service_waiting-Ordered (some w) c h o =
        if-both (Ensures Ordered) c.client.closed _ _ (λ _. Ensures-ok Ordered (inr o))
          (λ _. service_waiter-Ordered w c h o)

    service_event_waiter-Ordered :
        (c : Conn)
        → InOrder l loads dumps c
        → Ensures Ordered (service_event_waiter l loads dumps next_event timeout now c)
    unfolding service_event_waiter
    service_event_waiter-Ordered c o = service_waiting-Ordered c.client.waiting_for_event c refl o

  module _ (timeout : Option Value → Option ℕ) where
    abbrev Moves : Conn → Conn → Type 0
    Moves = Step l loads dumps timeout

    step-InOrder : {c c' : Conn} → Moves c c' → InOrder l loads dumps c → Ordered c'
    step-InOrder {c = c} {c' = c'} (received next_event now n chunk few still e) o =
        Ensures-elim Ordered _ c'
          (service_read-Ordered l loads dumps next_event timeout now n chunk c o) e
    step-InOrder {c = c} hung_up o = inl (close_client-closed c)
    step-InOrder {c = c} (written s) o = flush_writes-Ordered s c o
    step-InOrder {c = c} (finished q rest result e) o =
        inr (run_request-Ordered q rest result c e o)
    step-InOrder {c = c} {c' = c'} (drained next_event now r rs e e') o =
        Ensures-elim Ordered _ c' (drain_completion-Ordered timeout next_event now r rs c e o) e'
    step-InOrder {c = c} {c' = c'} (waited next_event now e) o =
        Ensures-elim Ordered _ c' (service_event_waiter-Ordered timeout next_event now c o) e
    step-InOrder {c = c} (others slots generation total clients) o =
        inr (others-Ordered slots generation total clients c o)

    run-Ordered : {c c' : Conn} → Reaches l loads dumps timeout c c' → Ordered c → Ordered c'
    run-Ordered stay o = o
    run-Ordered (onward r s) o = elim (run-Ordered r o) [
      | inl shut ↦ inl (step-Shut l loads dumps timeout s shut)
      | inr o' ↦ step-InOrder s o'
    ]

    accepted-Ordered :
        (c : Conn)
        → leb l.max_clients c.active_clients ≡ false
        → InOrder l loads dumps (accept_client l c)
    unfolding accept_client
    accepted-Ordered c h = rw h (record {
      received = [];
      fifo = record {
        is_open = refl;
        responses = [];
        answered = [];
        in_progress = [];
        answers = no_answer;
        written = refl;
        stage = idle;
        order = refl;
        socket = refl;
        buffer = refl;
      };
    })

    -- While a connection is open, what it was sent, with what is still to be written, is one response for each of its
    -- requests that it was sent an answer to, in the order of the lines it received, and one for each line that is not JSON; the
    -- other requests are the one that is in progress, if any, and those that are pending, in this order.
    pub run_answers :
        (c c' : Conn)
        → leb l.max_clients c.active_clients ≡ false
        → Reaches l loads dumps timeout (accept_client l c) c'
        → c'.client.closed ≡ false
        → InOrder l loads dumps c'
    run_answers c c' h r still = elim (run-Ordered r (inr (accepted-Ordered c h))) [
      | inl shut ↦ (let never : true ≡ false = sym shut ∙ still in cc)
      | inr o ↦ o
    ]
