-- ===== src/Rpc/Steps.antt =====
-- src/sensorium/runtime/rpc.py: what the loop of RuntimeRpcServer, the threads of its executor, and its other
-- connections do to one connection.
use sensorium.Base.{ℕ, ◌≤◌, length, ◌≡◌, false, List, ◌∷◌, Option, Bytes}
use sensorium.Base.Result.{Result, ok}
use sensorium.Normalize.Values.{Value}
use sensorium.Rpc.{Response, Conn, Limits, Sending, close_client}
use sensorium.Rpc.Serve.{
  service_read, drain_completion, service_event_waiter, flush_writes, run_request,
}

module _ (l : Limits) (loads : Bytes → Option Value) (dumps : Response → Bytes)
    (timeout : Option Value → Option ℕ) where
  -- one call of `serve_forever` for this connection, the end of a job, or something that another connection does
  -- to what they share. A closed connection is no longer registered, and not read; `sock.recv` gives
  -- as many bytes as it is asked for at most.
  pub data Step : Conn → Conn → Type 0 where
    received :
        {c c' : Conn} (next_event : Value → Result (Option Value)) (now n : ℕ) (chunk : Bytes)
        → length chunk ≤ 65536
        → c.client.closed ≡ false
        → service_read l loads dumps next_event timeout now n chunk c ≡ ok c'
        → Step c c'
    hung_up : {c : Conn} → Step c (close_client c)
    written : {c : Conn} (s : Sending) → Step c (flush_writes s c)
    finished :
        {c : Conn} (q : Value) (rest : List Value) (result : Result Value)
        → c.jobs ≡ q ∷ rest
        → Step c (run_request q rest result c)
    drained :
        {c c' : Conn} (next_event : Value → Result (Option Value)) (now : ℕ) (r : Response)
        (rs : List Response)
        → c.completions ≡ r ∷ rs
        → drain_completion l loads dumps next_event timeout now r (record c { completions = rs })
          ≡ ok c'
        → Step c c'
    waited :
        {c c' : Conn} (next_event : Value → Result (Option Value)) (now : ℕ)
        → service_event_waiter l loads dumps next_event timeout now c ≡ ok c'
        → Step c c'
    others :
        {c : Conn} (slots generation total clients : ℕ)
        → Step c (record c {
          worker_slots = slots;
          busy_generation = generation;
          busy_total = total;
          active_clients = clients;
        })

  pub data Reaches : Conn → Conn → Type 0 where
    stay : {c : Conn} → Reaches c c
    onward : {c d e : Conn} → Reaches c d → Step d e → Reaches c e
