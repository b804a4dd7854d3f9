-- ===== src/Rpc/Fifo/Shut.antt =====
-- src/sensorium/runtime/rpc.py: a connection that is closed stays closed.
use sensorium.Base.{
  ℕ, ◌≡◌, sym, ◌∙◌, true, false, ◌||◌, Option, none, some, Bytes, if-both, ◌==◌, length,
}
use sensorium.Base.Result.{Result, Ensures, Ensures-ok, Ensures-elim}
use sensorium.Normalize.Values.{Value}
use sensorium.Rpc.{Response, Conn, Limits, Waiter, Sending, taken, would_block, failed}
use sensorium.Rpc.Serve.{
  drain_completion, service_event_waiter, service_waiting, flush_writes, run_request,
}
use sensorium.Rpc.Steps.{Step, received, hung_up, written, finished, drained, waited, others}
use sensorium.Rpc.Fifo.Reading.{close_client-closed}

module _ (l : Limits) (loads : Bytes → Option Value) (dumps : Response → Bytes) where
  abbrev pub Shut : Conn → Type 0
  Shut c = c.client.closed ≡ true

  -- what may be done to a closed connection leaves it closed
  flush_writes-Shut : (s : Sending) (c : Conn) → Shut c → Shut (flush_writes s c)
  unfolding flush_writes
  flush_writes-Shut would_block c h = h
  flush_writes-Shut (taken n) c h =
      if-both Shut c.client.closed _ _ (λ _. h)
        (λ still. (let never : true ≡ false = sym h ∙ still in cc))
  flush_writes-Shut failed c h =
      if-both Shut (c.client.closed || length c.client.outbuf == 0) _ _ (λ _. h)
        (λ _. close_client-closed c)

  module _ (timeout : Option Value → Option ℕ) (next_event : Value → Result (Option Value))
      (now : ℕ) where
    drain_completion-Shut :
        (r : Response) (c : Conn)
        → Shut c
        → Ensures Shut (drain_completion l loads dumps next_event timeout now r c)
    unfolding drain_completion
    drain_completion-Shut r c h =
        if-both (Ensures Shut) c.client.closed _ _ (λ _. Ensures-ok Shut h)
          (λ still. (let never : true ≡ false = sym h ∙ still in cc))

    service_waiting-Shut :
        (w : Option Waiter) (c : Conn)
        → Shut c
        → Ensures Shut (service_waiting l loads dumps next_event timeout now w c)
    service_waiting-Shut none c h = Ensures-ok Shut h
    service_waiting-Shut (some w) c h =
        if-both (Ensures Shut) c.client.closed _ _ (λ _. Ensures-ok Shut h)
          (λ still. (let never : true ≡ false = sym h ∙ still in cc))

    service_event_waiter-Shut :
        (c : Conn)
        → Shut c
        → Ensures Shut (service_event_waiter l loads dumps next_event timeout now c)
    unfolding service_event_waiter
    service_event_waiter-Shut c h = service_waiting-Shut c.client.waiting_for_event c h

  module _ (timeout : Option Value → Option ℕ) where
    pub step-Shut : {c c' : Conn} → Step l loads dumps timeout c c' → Shut c → Shut c'
    unfolding run_request
    step-Shut (received next_event now n chunk few still e) h =
        (let never : true ≡ false = sym h ∙ still in cc)
    step-Shut {c = c} hung_up h = close_client-closed c
    step-Shut {c = c} (written s) h = flush_writes-Shut s c h
    step-Shut (finished q rest result e) h = h
    step-Shut {c = c} {c' = c'} (drained next_event now r rs e e') h =
        Ensures-elim Shut _ c'
          (drain_completion-Shut timeout next_event now r (record c { completions = rs }) h) e'
    step-Shut {c = c} {c' = c'} (waited next_event now e) h =
        Ensures-elim Shut _ c' (service_event_waiter-Shut timeout next_event now c h) e
    step-Shut (others slots generation total clients) h = h
