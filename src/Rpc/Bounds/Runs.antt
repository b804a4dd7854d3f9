-- ===== src/Rpc/Bounds/Runs.antt =====
-- src/sensorium/runtime/rpc.py: the limits hold over every run of a connection.
use sensorium.Base.{
  ℕ, ◌≤◌, ◌≡◌, refl, sym, ap, subst, ◌∙◌, true, false, not, ◌&&◌, ◌||◌, [], ◌++◌, Option, none,
  some, Bytes, length, inl, inr, if-both, ◌==◌, ltb, leb, arith,
}
use sensorium.Base.Result.{Result, Ensures, Ensures-ok, Ensures-bind, Ensures-elim, Ensures-both}
use sensorium.Normalize.Values.{Value}
use sensorium.Rpc.{
  Response, event_response, Conn, Client, Limits, Waiter, id_of, Sending, taken, would_block,
  failed, accept_client, has_newline,
}
use sensorium.Rpc.Serve.{
  drain_completion, service_event_waiter, service_waiting, event_due, flush_writes, run_request,
  dispatch_pending, queue_response, serve_lines, service_read,
}
use sensorium.Rpc.Steps.{
  Step, received, hung_up, written, finished, drained, waited, others, Reaches, stay, onward,
}
use sensorium.Rpc.Fifo.Reading.{close_client-closed}
use sensorium.Rpc.Bounds.{
  IsWithin, close_client-Within, queue_response-Within, send-Within, serve_lines-Within,
  dispatch-Within,
}
use sensorium.Rpc.Bounds.Buffer.{
  IsShort, limit, Same, queue_response-Same, dispatch_pending-Short, service_read-Short,
}

module _ (l : Limits) (loads : Bytes → Option Value) (dumps : Response → Bytes) where
  pub record IsLimited (c : Conn) : Type 0 where
    pub within : IsWithin l loads dumps c
    pub short : IsShort l loads dumps c

  both :
      {r : Result Conn}
      → Ensures (IsWithin l loads dumps) r
      → Ensures (IsShort l loads dumps) r
      → Ensures IsLimited r
  both w s =
      Ensures-both IsLimited w s (λ c within short. record { within = within; short = short })

  Same-IsShort : (c d : Conn) → Same c d → IsShort l loads dumps c → IsShort l loads dumps d
  Same-IsShort c d s (inl shut) = inl (s.0 ∙ shut)
  Same-IsShort c d s (inr (line, few)) =
      inr (ap has_newline s.1 ∙ line, subst (λ x. length x ≤ limit l loads dumps) (sym s.1) few)

  -- the connection with the same client, whatever the rest
  same_client : (c d : Conn) → d.client ≡ c.client → IsLimited c → IsLimited d
  same_client c d e h = record {
    within = subst (λ (x : Client). length x.pending_requests ≤ l.max_pending) (sym e) h.within;
    short =
        Same-IsShort c d (ap (λ (x : Client). x.closed) e, ap (λ (x : Client). x.inbuf) e) h.short;
  }

  flush_writes-Limited : (s : Sending) (c : Conn) → IsLimited c → IsLimited (flush_writes s c)
  unfolding flush_writes
  flush_writes-Limited would_block c h = h
  flush_writes-Limited (taken n) c h =
      if-both IsLimited c.client.closed _ _ (λ _. h)
        (λ _. record { within = h.within; short = h.short })
  flush_writes-Limited failed c h =
      if-both IsLimited (c.client.closed || length c.client.outbuf == 0) _ _ (λ _. h)
        (λ _. record {
          within = close_client-Within l loads dumps c h.within;
          short = inl (close_client-closed c);
        })

  module _ (timeout : Option Value → Option ℕ) (next_event : Value → Result (Option Value))
      (now : ℕ) where
    dispatch_pending-Limited :
        (c : Conn)
        → IsLimited c
        → Ensures IsLimited (dispatch_pending l loads dumps next_event timeout now c)
    dispatch_pending-Limited c h =
        both
          (dispatch-Within l loads dumps next_event timeout now c.client.pending_requests c refl
            h.within)
          (dispatch_pending-Short l loads dumps next_event timeout now c h.short)

    service_read-Limited :
        (n : ℕ) (chunk : Bytes) (c : Conn)
        → length chunk ≤ 65536
        → c.client.closed ≡ false
        → IsLimited c
        → Ensures IsLimited (service_read l loads dumps next_event timeout now n chunk c)
    unfolding service_read
    service_read-Limited n chunk c few still h =
        both
          (if-both (Ensures (IsWithin l loads dumps))
            (not (has_newline (c.client.inbuf ++ chunk))
              && ltb l.max_request_bytes (length (c.client.inbuf ++ chunk)))
            _ _ (λ _. Ensures-ok (IsWithin l loads dumps) (send-Within l loads dumps n _ h.within))
            (λ _.
              if-both (Ensures (IsWithin l loads dumps))
                (serve_lines l loads dumps n [] (c.client.inbuf ++ chunk) _).client.closed _ _
                (λ _.
                  Ensures-ok (IsWithin l loads dumps)
                    (serve_lines-Within l loads dumps n [] _ _ h.within))
                (λ _.
                  dispatch-Within l loads dumps next_event timeout now _ _ refl
                    (serve_lines-Within l loads dumps n [] (c.client.inbuf ++ chunk) _ h.within))))
          (service_read-Short l loads dumps next_event timeout now n chunk c few (elim h.short [
            | inl shut ↦ (let never : true ≡ false = sym shut ∙ still in cc)
            | inr (line, fits) ↦ line
          ]))

    answered-Limited :
        (r : Response) (c : Conn)
        → IsLimited c
        → Ensures IsLimited (
            dispatch_pending l loads dumps next_event timeout now
              (queue_response l loads dumps r c))
    answered-Limited r c h = dispatch_pending-Limited _ (record {
      within = queue_response-Within l loads dumps r c h.within;
      short =
          Same-IsShort c (queue_response l loads dumps r c) (queue_response-Same l loads dumps r c)
            h.short;
    })

    drain_completion-Limited :
        (r : Response) (c : Conn)
        → IsLimited c
        → Ensures IsLimited (drain_completion l loads dumps next_event timeout now r c)
    unfolding drain_completion
    drain_completion-Limited r c h =
        if-both (Ensures IsLimited) c.client.closed _ _ (λ _. Ensures-ok IsLimited h)
          (λ _. answered-Limited r _ (record { within = h.within; short = h.short }))

    service_waiting-Limited :
        (w : Option Waiter) (c : Conn)
        → IsLimited c
        → Ensures IsLimited (service_waiting l loads dumps next_event timeout now w c)
    service_waiting-Limited none c h = Ensures-ok IsLimited h
    service_waiting-Limited (some w) c h =
        if-both (Ensures IsLimited) c.client.closed _ _ (λ _. Ensures-ok IsLimited h)
          (λ _. Ensures-bind IsLimited (next_event w.backend_id) _ (λ event e.
            if-both (Ensures IsLimited)
              (event_due l loads dumps next_event timeout now w.deadline event) _ _
              (λ _.
                answered-Limited (event_response (id_of w.request) event) _
                  (record { within = h.within; short = h.short }))
              (λ _. Ensures-ok IsLimited h)))

    service_event_waiter-Limited :
        (c : Conn)
        → IsLimited c
        → Ensures IsLimited (service_event_waiter l loads dumps next_event timeout now c)
    unfolding service_event_waiter
    service_event_waiter-Limited c h = service_waiting-Limited c.client.waiting_for_event c h

  module _ (timeout : Option Value → Option ℕ) where
    step-Limited : {c c' : Conn} → Step l loads dumps timeout c c' → IsLimited c → IsLimited c'
    unfolding run_request
    step-Limited {c = c} {c' = c'} (received next_event now n chunk few still e) h =
        Ensures-elim IsLimited _ c'
          (service_read-Limited timeout next_event now n chunk c few still h) e
    step-Limited {c = c} hung_up h = record {
      within = close_client-Within l loads dumps c h.within;
      short = inl (close_client-closed c);
    }
    step-Limited {c = c} (written s) h = flush_writes-Limited s c h
    step-Limited {c = c} {c' = c'} (finished q rest result e) h = same_client c c' refl h
    step-Limited {c = c} {c' = c'} (drained next_event now r rs e e') h =
        Ensures-elim IsLimited _ c'
          (drain_completion-Limited timeout next_event now r (record c { completions = rs })
            (same_client c (record c { completions = rs }) refl h))
          e'
    step-Limited {c = c} {c' = c'} (waited next_event now e) h =
        Ensures-elim IsLimited _ c' (service_event_waiter-Limited timeout next_event now c h) e
    step-Limited {c = c} {c' = c'} (others slots generation total clients) h =
        same_client c c' refl h

    run-Limited : {c c' : Conn} → Reaches l loads dumps timeout c c' → IsLimited c → IsLimited c'
    run-Limited stay h = h
    run-Limited (onward r s) h = step-Limited s (run-Limited r h)

    accepted-Limited :
        (c : Conn) → leb l.max_clients c.active_clients ≡ false → IsLimited (accept_client l c)
    unfolding accept_client
    accepted-Limited c e = rw e (record { within = omega arith; short = inr (refl, omega arith) })

    -- Over every run of an accepted connection, no more requests are pending than the limit allows, and while it is open, its buffer
    -- is the start of one line, of at most the size of a request or of one read, whichever is larger.
    pub run_limits :
        (c c' : Conn)
        → leb l.max_clients c.active_clients ≡ false
        → Reaches l loads dumps timeout (accept_client l c) c'
        → IsLimited c'
    run_limits c c' e r = run-Limited r (accepted-Limited c e)
