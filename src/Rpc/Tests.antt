-- ===== src/Rpc/Tests.antt =====
-- Runs of src/sensorium/runtime/rpc.py: a poll and a request behind it, in one read.
use sensorium.Base.{
  ℕ, ◌≡◌, refl, true, false, [], ◌∷◌, Option, none, some, codes, Bytes, bytes_eq, if◌then◌else◌,
  pos, arith,
}
use sensorium.Base.Result.{Result, ok}
use sensorium.Normalize.Values.{Value, int, str, obj, of_pairs, end}
use sensorium.Rpc.{
  Response, busy_response, error_response, result_response, event_response, Conn, Client, Limits,
  accept_client,
}
use sensorium.Rpc.Serve.{
  service_read, serve_line, serve_lines, queue_response, dispatch, dispatch_pending,
  begin_next_event_wait,
}
use sensorium.Rpc.Steps.{Reaches, stay, onward, received}
use sensorium.Rpc.Fifo.Chunks.{InOrder}
use sensorium.Rpc.Fifo.Runs.{run_answers}
use sensorium.Rpc.Bounds.Runs.{IsLimited, run_limits}
use sensorium.Rpc.Progress.{IsPoll, Held, dispatch_pending_lem}

abbrev poll : Value
poll = obj (
    of_pairs (
      (str (codes "id"), int (pos 1))
      ∷ (str (codes "method"), str (codes "backend.next_event"))
      ∷ []))

abbrev status : Value
status =
    obj (
      of_pairs
        ((str (codes "id"), int (pos 2)) ∷ (str (codes "method"), str (codes "status")) ∷ []))

-- `p` and `s` stand for the texts of the two requests
abbrev loads : Bytes → Option Value
loads line =
    if bytes_eq line (codes "p")
    then some poll
    else if bytes_eq line (codes "s")
    then some status
    else none

abbrev dumps : Response → Bytes
dumps busy_response = codes "busy"
dumps (error_response id) = codes "error"
dumps (result_response id v) = codes "result"
dumps (event_response id e) = codes "event"

abbrev limits : Limits
limits = record { max_clients = 2; max_request_bytes = 256; max_pending = 4 }

abbrev blank_client : Client
blank_client = record {
  sock = record { received = []; sent = [] };
  inbuf = [];
  outbuf = [];
  pending_requests = [];
  active_request = false;
  waiting_for_event = none;
  closed = true;
}

abbrev server : Conn
server = record {
  client = blank_client;
  jobs = [];
  completions = [];
  worker_slots = 8;
  busy_generation = 0;
  busy_total = 0;
  active_clients = 1;
}

abbrev an_event : Value → Result (Option Value)
an_event backend_id = ok (some (str (codes "tick")))

abbrev seconds : Option Value → Option ℕ
seconds none = some 30
seconds (some (int (pos n))) = some n
seconds (some v) = none

-- the status request is in the executor, and what follows it is half a line
abbrev busy_conn : Conn
busy_conn = record {
  client = record {
    sock = record { received = codes "s\nx\np"; sent = [] };
    inbuf = codes "p";
    outbuf = codes "error\n";
    pending_requests = [];
    active_request = true;
    waiting_for_event = none;
    closed = false;
  };
  jobs = status ∷ [];
  completions = [];
  worker_slots = 7;
  busy_generation = 0;
  busy_total = 0;
  active_clients = 2;
}

status_read :
    service_read limits loads dumps an_event seconds 0 0
      (codes "s\nx\np")
      (accept_client limits server)
    ≡ ok busy_conn
unfolding service_read accept_client serve_lines serve_line queue_response dispatch
    begin_next_event_wait
status_read = refl

status_reached : Reaches limits loads dumps seconds (accept_client limits server) busy_conn
unfolding accept_client
status_reached =
    onward stay (received an_event 0 0 (codes "s\nx\np") (omega arith) refl status_read)

run_answers_example : InOrder limits loads dumps busy_conn
run_answers_example =
    run_answers limits loads dumps seconds server busy_conn refl status_reached refl

run_limits_example : IsLimited limits loads dumps busy_conn
run_limits_example = run_limits limits loads dumps seconds server busy_conn refl status_reached

-- a poll that is answered at once leaves the request behind it pending, with nothing in progress
abbrev two_pending : Conn
two_pending = record busy_conn {
  client = record busy_conn.client {
    pending_requests = poll ∷ status ∷ [];
    active_request = false;
  };
  jobs = [];
}

abbrev status_waits : Conn
status_waits = record two_pending {
  client = record two_pending.client {
    outbuf = codes "error\nevent\n";
    pending_requests = status ∷ [];
  };
}

status_left : dispatch_pending limits loads dumps an_event seconds 0 two_pending ≡ ok status_waits
unfolding dispatch begin_next_event_wait queue_response
status_left = refl

readable_poll : IsPoll limits loads dumps an_event seconds 0 poll
readable_poll = record {
  params = end;
  ticks = 30;
  event = some (str (codes "tick"));
  has_params = refl;
  has_timeout = refl;
  has_event = refl;
}

dispatch_pending_lem_example :
    (c : Conn) × (dispatch_pending limits loads dumps an_event seconds 0 two_pending ≡ ok c)
    × Held limits loads dumps an_event seconds 0 (poll ∷ status ∷ []) c
dispatch_pending_lem_example =
    dispatch_pending_lem limits loads dumps an_event seconds 0 two_pending
      ((λ _. readable_poll), ((λ other. cc), tt))
