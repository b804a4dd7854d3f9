-- ===== src/Rpc/Serve.antt =====
-- src/sensorium/runtime/rpc.py: what RuntimeRpcServer does for one connection. `loads` and `dumps` are of the
-- standard library's JSON, whose texts are not modelled; the calls of the selector for a registered socket succeed.
use sensorium.Base.{
  ℕ, ◌+◌, ◌-◌, Bool, true, false, not, ◌&&◌, ◌||◌, List, [], ◌∷◌, ◌++◌, Option, none, some,
  if◌then◌else◌, leb, ltb, ◌==◌, Bytes, codes, length, take, drop,
}
use sensorium.Base.Result.{Result, ok, raise, ◌>>=◌}
use sensorium.Normalize.Values.{Value, null, get, or_else}
use sensorium.Rpc.{
  Response, Waiter, Client, Conn, Limits, id_of, with_client, set_inbuf, close_client, Sending,
  is_blank, newline, has_newline, is_waiting, request_params, is_next_event, waiter, seconds_of,
  busy_response, error_response, result_response, event_response, taken, would_block, failed,
}

module _ (l : Limits) (loads : Bytes → Option Value) (dumps : Response → Bytes) where
  abbrev pub frame : Response → Bytes
  frame r = dumps r ++ newline ∷ []

  -- `_queue_response`
  unfoldable pub queue_response : Response → Conn → Conn
  queue_response r c =
      if c.client.closed then c else with_client (λ x. record x { outbuf = x.outbuf ++ frame r }) c

  -- `_send_error_and_close`, of whose text the socket takes `n` bytes
  unfoldable pub send_error_and_close : ℕ → Conn → Conn
  send_error_and_close n c =
      let sent = take n (frame (error_response null)) in
      if c.client.closed
      then c
      else close_client
          (with_client (λ x. record x { sock = record x.sock { sent = x.sock.sent ++ sent } }) c)

  -- `state.pending_requests.append`, behind its limit
  abbrev pub append_request : ℕ → Value → Conn → Conn
  append_request n q c =
      if leb l.max_pending (length c.client.pending_requests)
      then send_error_and_close n c
      else with_client (λ x. record x { pending_requests = x.pending_requests ++ q ∷ [] }) c

  -- the body of the loop over lines
  unfoldable pub serve_line : ℕ → Bytes → Conn → Conn
  serve_line n line c =
      if is_blank line
      then c
      else if ltb l.max_request_bytes (length line)
      then send_error_and_close n c
      else elim (loads line) [
        | none ↦ queue_response (error_response null) c
        | some q ↦ append_request n q c
      ]

  -- The loop over the lines, with the line so far: a line that closes the connection is the last, and what
  -- is behind the last newline stays.
  unfoldable pub serve_lines : ℕ → Bytes → Bytes → Conn → Conn
  serve_lines n line [] c = set_inbuf line c
  serve_lines n line (b ∷ bs) c =
      let c' = if b == newline then serve_line n line c else c in
      let line' = if b == newline then [] else line ++ b ∷ [] in
      let onward = serve_lines n line' bs c' in if c'.client.closed then set_inbuf bs c' else onward

  -- a bounded semaphore without a free slot, or with one
  abbrev pub submit : Value → Conn → Conn
  submit q c =
      if c.worker_slots == 0
      then queue_response busy_response
          (record c { busy_generation = c.busy_generation + 1; busy_total = c.busy_total + 1 })
      else record c {
        client = record c.client { active_request = true };
        jobs = c.jobs ++ q ∷ [];
        worker_slots = c.worker_slots - 1;
      }

  -- `next_event_fn`, `float` with `max(0.0, _)` and its default, and the clock
  module _ (next_event : Value → Result (Option Value)) (timeout : Option Value → Option ℕ)
      (now : ℕ) where
    abbrev pub wait_or_answer : Value → Value → ℕ → Option Value → Conn → Conn
    wait_or_answer q backend_id ticks (some event) c =
        queue_response (event_response (id_of q) (some event)) c
    wait_or_answer q backend_id ticks none c =
        with_client (λ x. record x { waiting_for_event = some (waiter q backend_id (now + ticks)) })
          c

    -- `_begin_next_event_wait`
    unfoldable pub begin_next_event_wait : Value → Conn → Result Conn
    begin_next_event_wait q c = do
      params ← request_params q
      ticks ← seconds_of (timeout (get (codes "timeout") params))
      event ← next_event (or_else null (get (codes "backend_id") params))
      ok (wait_or_answer q (or_else null (get (codes "backend_id") params)) ticks event c)

    abbrev pub may_dispatch : Client → Bool
    may_dispatch x = not x.closed && not x.active_request && not (is_waiting x.waiting_for_event)

    -- the loop of `_dispatch_pending`, over what is pending
    unfoldable pub dispatch : List Value → Conn → Result Conn
    dispatch [] c = ok c
    dispatch (q ∷ qs) c =
        let popped = with_client (λ x. record x { pending_requests = qs }) c in
        let onward = dispatch qs (submit q popped) in
        let polled = begin_next_event_wait q popped in
        if may_dispatch c.client then if is_next_event q then polled else onward else ok c

    -- `_dispatch_pending`
    abbrev pub dispatch_pending : Conn → Result Conn
    dispatch_pending c = dispatch c.client.pending_requests c

    -- `_service_client`, when the socket can be read and gives some bytes
    unfoldable pub service_read : ℕ → Bytes → Conn → Result Conn
    service_read n chunk c =
        let buffer = c.client.inbuf ++ chunk in
        let c' =
          with_client
            (λ x. record x {
              sock = record x.sock { received = x.sock.received ++ chunk };
              inbuf = buffer;
            })
            c in
        let served = serve_lines n [] buffer c' in
        if not (has_newline buffer) && ltb l.max_request_bytes (length buffer)
        then ok (send_error_and_close n c')
        else if served.client.closed
        then ok served
        else dispatch_pending served

    -- one round of `_drain_completions`
    unfoldable pub drain_completion : Response → Conn → Result Conn
    drain_completion r c =
        if c.client.closed
        then ok c
        else dispatch_pending
            (queue_response r (with_client (λ x. record x { active_request = false }) c))

    abbrev pub event_due : ℕ → Option Value → Bool
    event_due deadline none = leb deadline now
    event_due deadline (some event) = true

    -- `_service_event_waiters`, for a client that waits
    abbrev pub service_waiter : Waiter → Conn → Result Conn
    service_waiter w c = do
      event ← next_event w.backend_id
      let answered =
            queue_response (event_response (id_of w.request) event)
              (with_client (λ x. record x { waiting_for_event = none }) c) in
          if event_due w.deadline event then dispatch_pending answered else ok c

    abbrev pub service_waiting : Option Waiter → Conn → Result Conn
    service_waiting none c = ok c
    service_waiting (some w) c = if c.client.closed then ok c else service_waiter w c

    unfoldable pub service_event_waiter : Conn → Result Conn
    service_event_waiter c = service_waiting c.client.waiting_for_event c

-- `_flush_writes`, when the socket can be written
unfoldable pub flush_writes : Sending → Conn → Conn
flush_writes (taken n) c =
    let x = c.client in
    if x.closed
    then c
    else with_client
        (λ x. record x {
          sock = record x.sock { sent = x.sock.sent ++ take n x.outbuf };
          outbuf = drop n x.outbuf;
        })
        c
flush_writes would_block c = c
flush_writes failed c = if c.client.closed || length c.client.outbuf == 0 then c else close_client c

-- the response of `_run_request`; `dispatch_runtime_request` sends back the id
abbrev pub response_of : Value → Result Value → Response
response_of q (ok v) = result_response (id_of q) v
response_of q (raise e) = error_response (id_of q)

-- `_run_request`, by which a job ends
unfoldable pub run_request : Value → List Value → Result Value → Conn → Conn
run_request q rest result c = record c {
  jobs = rest;
  completions = c.completions ++ response_of q result ∷ [];
  worker_slots = c.worker_slots + 1;
}
